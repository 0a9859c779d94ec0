-- ===== src/Calls/Transactions.antt =====
-- A handler of internal/service/call/service.go over the tables: it reads and writes them, and what
-- it has written stays when it fails, but for the writes inside `WithinTx`, which are undone. Events
-- and the calls of the media server after a write are left out.
use aloqa_claude.Prelude.{String, Bool, if◌then◌else◌, Option, none, some}
use aloqa_claude.Errors.{Error, Result, ok, err, app, AppError, as_app_error, internal_error}
use aloqa_claude.Calls.Store.{Tables}

pub data Outcome (A : Type 0) : Type 0 where
  done : A → Tables → Outcome A
  failed : Error → Tables → Outcome A

-- The tables after the handler, whether it failed or not.
abbrev pub left_by : {A : Type 0} → Outcome A → Tables
left_by (done a t) = t
left_by (failed e t) = t

abbrev pub Handler : Type 0 → Type 0
Handler A = Tables → Outcome A

unfoldable pub give : {A : Type 0} → A → Handler A
give a t = done a t

unfoldable pub fail : {A : Type 0} → Error → Handler A
fail e t = failed e t

-- A read, or a check, of the current tables.
unfoldable pub reads : {A : Type 0} → (Tables → Result A) → Handler A
reads r t = elim (r t) [ ok a ↦ done a t | err e ↦ failed e t ]

-- A statement that may fail, which then has written nothing.
unfoldable pub writes : {A : Type 0} → (Tables → Result (A × Tables)) → Handler A
writes w t = elim (w t) [ ok (a, t') ↦ done a t' | err e ↦ failed e t ]

unfoldable pub when : Bool → Handler (Unit {0}) → Handler (Unit {0})
when b m = if b then m else give tt

-- `tx.WithinTx`
unfoldable pub within_tx : {A : Type 0} → Handler A → Handler A
within_tx m t = elim (m t) [ done a t' ↦ done a t' | failed e _ ↦ failed e t ]

-- What the caller makes of an error.
unfoldable pub on_error : {A : Type 0} → Handler A → (Error → Error) → Handler A
on_error m f t = elim (m t) [ done a t' ↦ done a t' | failed e t' ↦ failed (f e) t' ]

-- An error that is only logged.
unfoldable pub ignoring : Handler (Unit {0}) → Handler (Unit {0})
ignoring m t = elim (m t) [ done a t' ↦ done a t' | failed e t' ↦ done tt t' ]

-- `serviceError` and `mediaRoomPreparationError`: an application error is passed on.
abbrev passed_on : String → Error → Option AppError → Error
passed_on message e none = internal_error message e
passed_on message e (some a) = app a.code a.message a.cause

unfoldable pub service_error : String → Error → Error
service_error message e = passed_on message e (as_app_error e)

-- A statement with no answer, and one that cannot fail.
unfoldable pub updates : (Tables → Result Tables) → Handler (Unit {0})
updates u t = elim (u t) [ ok t' ↦ done tt t' | err e ↦ failed e t ]

unfoldable pub answers : {A : Type 0} → (Tables → A × Tables) → Handler A
answers w t = done (w t).0 (w t).1

-- Opening `◌>>=◌` opens the handlers above.
infixl 5 ◌>>=◌ ◌>>◌
unfoldable pub ◌>>=◌ : {A B : Type 0} → Handler A → (A → Handler B) → Handler B
unfolding give fail reads writes updates answers when within_tx on_error ignoring
◌>>=◌ m next t = elim (m t) [ done a t' ↦ next a t' | failed e t' ↦ failed e t' ]

abbrev pub ◌>>◌ : {B : Type 0} → Handler (Unit {0}) → Handler B → Handler B
m >> k = m >>= λ _. k
