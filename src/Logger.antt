-- ===== src/Logger.antt =====
-- internal/logger/zap.go. Zap's cores and writers are values that say what they are made of; what zap,
-- Sentry and the file system do with them are parameters.
pub mod Fields
pub mod Building
use search_engine_service.Base.{
  ℕ, String, List, [], ◌∷◌, ◌++◌, Option, none, some, Bool, true, false, ◌&&◌, not, if◌then◌else◌,
  ◌==◌, string_eq,
}
use search_engine_service.Base.Int.{ℤ, pos, negsuc, int_eq, leb_ℤ}
use search_engine_service.Base.Float.{Float}
use search_engine_service.Base.Slices.{Slice, Heap, empty_slice, append, elements}
use search_engine_service.Base.Dict.{insert}
use search_engine_service.Base.Effects.{Error, Result, ok, err, Eff, pure, ◌>>=◌}
use search_engine_service.Domain.Content.{Time, Duration}

pub record Config : Type 0 where
  pub level : String
  pub format : String
  pub output : String

pub record SentryConfig (F : Type 0) : Type 0 where
  pub enabled : Bool
  pub dsn : String
  pub environment : String
  pub sample_rate : F

-- `zapcore.Level`.
abbrev pub Level : Type 0
Level = ℤ

abbrev pub debug_level : Level
debug_level = negsuc 0

abbrev pub info_level : Level
info_level = pos 0

abbrev pub warn_level : Level
warn_level = pos 1

abbrev pub error_level : Level
error_level = pos 2

abbrev pub dpanic_level : Level
dpanic_level = pos 3

abbrev pub panic_level : Level
panic_level = pos 4

abbrev pub fatal_level : Level
fatal_level = pos 5

pub data SentryLevel : Type 0 where
  sentry_debug sentry_info sentry_warning sentry_error sentry_fatal : SentryLevel

unfoldable pub zap_level_to_sentry : Level → SentryLevel
zap_level_to_sentry level =
    if level == debug_level
    then sentry_debug
    else if level == info_level
    then sentry_info
    else if level == warn_level
    then sentry_warning
    else if level == error_level
    then sentry_error
    else if level == dpanic_level
    then sentry_fatal
    else if level == panic_level
    then sentry_fatal
    else if level == fatal_level
    then sentry_fatal
    else sentry_info

-- The types of fields that the code tells apart.
pub data FieldType : Type 0 where
  string_type int64_type int32_type int16_type int8_type : FieldType
  float64_type float32_type bool_type duration_type other_type : FieldType

-- `zapcore.Field`: `X` is what is behind an interface.
pub record Field (X : Type 0) : Type 0 where
  pub key : String
  pub type : FieldType
  pub integer : ℤ
  pub string : String
  pub interface : Option X

-- A value of the map for Sentry.
pub data Value (F X : Type 0) : Type 0 where
  text : String → Value F X
  number : ℤ → Value F X
  real : F → Value F X
  flag : Bool → Value F X
  any : X → Value F X

module _ {F X : Type 0} ⦃f : Float F⦄ (duration_text : Duration → String) where
  -- What a field puts in the map: nothing, if it has another type and no interface.
  unfoldable pub value_of : Field X → Option (Value F X)
  value_of x = elim x.type [
    | string_type ↦ some (text x.string)
    | int64_type ↦ some (number x.integer)
    | int32_type ↦ some (number x.integer)
    | int16_type ↦ some (number x.integer)
    | int8_type ↦ some (number x.integer)
    | float64_type ↦ some (real (f.of_int x.integer))
    | float32_type ↦ some (real (f.of_int x.integer))
    | bool_type ↦ some (flag (x.integer == pos 1))
    | duration_type ↦ some (text (duration_text x.integer))
    | other_type ↦ elim x.interface [ none ↦ none | some i ↦ some (any i) ]
  ]

  -- One turn of the loop.
  unfoldable pub add_field : Field X → List (String × Value F X) → List (String × Value F X)
  unfolding value_of
  add_field x m = elim (value_of x) [ none ↦ m | some v ↦ insert x.key v m ]

  unfoldable pub add_fields : List (Field X) → List (String × Value F X) → List (String × Value F X)
  unfolding add_field
  add_fields [] m = m
  add_fields (x ∷ xs) m = add_fields xs (add_field x m)

  unfoldable pub fields_to_map : List (Field X) → List (String × Value F X)
  unfolding add_fields
  fields_to_map xs = add_fields xs []

-- `zapcore.Entry`.
pub record Entry : Type 0 where
  pub level : Level
  pub message : String
  pub logger_name : String
  pub time : Time

-- `sentry.Event`.
pub record Event (F X : Type 0) : Type 0 where
  pub level : SentryLevel
  pub message : String
  pub logger : String
  pub timestamp : Time
  pub extra : List (String × Value F X)

-- Its fields are a slice, whose array other cores may share.
pub record SentryCore : Type 0 where
  pub level : Level
  pub fields : Slice

-- `zapcore.Field{}`.
abbrev pub no_field : {X : Type 0} → Field X
no_field = record { key = ""; type = other_type; integer = pos 0; string = ""; interface = none }

unfoldable pub new_sentry_core : Level → SentryCore
new_sentry_core level = record { level = level; fields = empty_slice }

-- `room` is what the runtime gives a new array beyond the places that are needed.
module _ {X : Type 0} (room : ℕ → ℕ) where
  -- `With`: the core with more fields, in the array of the old one if that has room.
  unfoldable pub core_with : SentryCore → List (Field X) → Eff (Heap (Field X)) SentryCore
  core_with c fields h =
      let (all, h') = append no_field room c.fields fields h in (record c { fields = all }, h')

-- `Check`: the cores that are to write the entry.
unfoldable pub check : SentryCore → Entry → List SentryCore → List SentryCore
check c entry checked = if leb_ℤ error_level entry.level then checked ++ c ∷ [] else checked

-- `Write`, up to the event that it captures.
unfoldable pub event_of :
    {F X : Type 0} ⦃f : Float F⦄
    → (Duration → String)
    → (ℕ → ℕ)
    → SentryCore
    → Entry
    → List (Field X)
    → Eff (Heap (Field X)) (Event F X)
unfolding zap_level_to_sentry fields_to_map
event_of duration_text room c entry fields h =
    let (all_fields, h') = append no_field room c.fields fields h in
    (
      record {
        level = zap_level_to_sentry entry.level;
        message = entry.message;
        logger = entry.logger_name;
        timestamp = entry.time;
        extra = fields_to_map duration_text (elements all_fields h');
      },
      h',
    )
