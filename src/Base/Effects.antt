-- ===== src/Base/Effects.antt =====
-- Go's `(value, error)` results, the errors that the program makes and tests for, and code that
-- reads and changes a world outside of the process (database, Redis, providers).
use search_engine_service.Base.{String, ◌<>◌, Bool, true, false}

-- `plain` is `errors.New` and an error of a dependency, by its text; `wrapped` is
-- `fmt.Errorf("text: %w", err)`; then come the dependencies' sentinels that the program compares
-- with, and a run-time panic, which no code tests for.
pub data Error : Type 0 where
  plain : String → Error
  wrapped : String → Error → Error
  record_not_found : Error
  redis_nil : Error
  lock_failed : Error
  panicked : Error

-- `err.Error()`.
unfoldable pub error_text : Error → String
error_text (plain s) = s
error_text (wrapped s e) = s <> ": " <> error_text e
error_text record_not_found = "record not found"
error_text redis_nil = "redis: nil"
error_text lock_failed = "redsync: failed to acquire lock"
error_text panicked = "runtime error: integer divide by zero"

-- `errors.Is(err, gorm.ErrRecordNotFound)`.
unfoldable pub is_record_not_found : Error → Bool
is_record_not_found record_not_found = true
is_record_not_found (wrapped s e) = is_record_not_found e
is_record_not_found (plain s) = false
is_record_not_found redis_nil = false
is_record_not_found lock_failed = false
is_record_not_found panicked = false

pub data Result {ℓ} (A : Type ℓ) : Type ℓ where
  ok : A → Result A
  err : Error → Result A

-- A computation that may change the world `W`.
abbrev pub Eff : Type 0 → Type 0 → Type 0
Eff W A = W → A × W

abbrev pub pure : {W A : Type 0} → A → Eff W A
pure a w = (a, w)

infixl 5 ◌>>=◌ ◌>>◌
abbrev pub ◌>>=◌ : {W A B : Type 0} → Eff W A → (A → Eff W B) → Eff W B
◌>>=◌ m f w = f (m w).0 (m w).1

abbrev pub ◌>>◌ : {W A B : Type 0} → Eff W A → Eff W B → Eff W B
◌>>◌ m k w = k (m w).1

-- `if err != nil { return fmt.Errorf("text: %w", err) }`, and else what follows.
abbrev pub on_ok : {W A B : Type 0} → String → Result A → (A → Eff W (Result B)) → Eff W (Result B)
on_ok text (ok a) k = k a
on_ok text (err e) k = pure (err (wrapped text e))
