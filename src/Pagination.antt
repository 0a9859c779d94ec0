-- ===== src/Pagination.antt =====
-- internal/pkg/pagination/pagination.go: the limit of a page.
use aloqa_claude.Prelude.{ℕ, ltb, nat_beq, if◌then◌else◌}

abbrev pub default_limit : ℕ
default_limit = 50

abbrev pub max_limit : ℕ
max_limit = 100

-- `Params.Normalize`, at the limit; a limit below 0 reads as 0.
unfoldable pub normalize_limit : ℕ → ℕ
normalize_limit limit =
    let positive = if nat_beq limit 0 then default_limit else limit in
    if ltb max_limit positive then max_limit else positive
