-- ===== src/Logger/Building.antt =====
-- internal/logger/zap.go, `New`, `Sync` and `With`. Sentry, the level parser and the file system are
-- the parameter `Surroundings`; `H` is an open file.
use search_engine_service.Base.{
  ℕ, String, List, [], ◌++◌, Option, none, some, Bool, ◌&&◌, not, if◌then◌else◌, ◌==◌, string_eq,
}
use search_engine_service.Base.Effects.{Error, Result, ok, err, Eff, pure, ◌>>=◌}
use search_engine_service.Base.Slices.{Heap}
use search_engine_service.Logger.{
  Config, SentryConfig, Level, info_level, Field, SentryCore, new_sentry_core, core_with,
}

-- `zapcore.EncoderConfig`: the keys by their texts, the encoders of parts by zapcore's names.
pub record EncoderConfig : Type 0 where
  pub time_key : String
  pub level_key : String
  pub name_key : String
  pub caller_key : String
  pub message_key : String
  pub stacktrace_key : String
  pub encode_level : String
  pub encode_time : String
  pub encode_duration : String
  pub encode_caller : String

abbrev pub encoder_config : EncoderConfig
encoder_config = record {
  time_key = "timestamp";
  level_key = "level";
  name_key = "logger";
  caller_key = "caller";
  message_key = "message";
  stacktrace_key = "stacktrace";
  encode_level = "LowercaseLevelEncoder";
  encode_time = "ISO8601TimeEncoder";
  encode_duration = "SecondsDurationEncoder";
  encode_caller = "ShortCallerEncoder";
}

pub data Encoder : Type 0 where
  console_encoder json_encoder : EncoderConfig → Encoder

pub data Output (H : Type 0) : Type 0 where
  stdout stderr : Output H
  file : H → Output H

-- `zapcore.NewCore`, with the core for Sentry that `NewTee` may put beside it.
pub record Core (H X : Type 0) : Type 0 where
  pub encoder : Encoder
  pub output : Output H
  pub level : Level
  pub fields : List (Field X)
  pub sentry : Option SentryCore

pub record Logger (H X : Type 0) : Type 0 where
  pub core : Core H X
  pub sentry_enabled : Bool

pub record Surroundings (F W H : Type 0) : Type 0 where
  pub init_sentry : SentryConfig F → Eff W (Option Error)
  pub flush_sentry : Eff W (Unit {0})
  pub parse_level : String → Result Level
  pub open_file : String → Eff W (Result H)

unfoldable pub level_or_info : Result Level → Level
level_or_info (ok level) = level
level_or_info (err e) = info_level

unfoldable pub encoder_of : String → Encoder
encoder_of format =
    if format == "console"
    then console_encoder (record encoder_config { encode_level = "CapitalColorLevelEncoder" })
    else json_encoder encoder_config

abbrev opened : {H : Type 0} → Result H → Result (Output H)
opened (ok h) = ok (file h)
opened (err e) = err e

module _ {F W H : Type 0} (around : Surroundings F W H) where
  -- Sentry is set up only if it is enabled and has a DSN.
  unfoldable pub set_up_sentry : SentryConfig F → Eff W (Option Error)
  set_up_sentry sentry_cfg =
      if sentry_cfg.enabled && not (sentry_cfg.dsn == "")
      then around.init_sentry sentry_cfg
      else pure none

  unfoldable pub open_output : String → Eff W (Result (Output H))
  open_output output =
      if output == "stdout"
      then pure (ok stdout)
      else if output == ""
      then pure (ok stdout)
      else if output == "stderr"
      then pure (ok stderr)
      else (do h ← around.open_file output; pure (opened h))

  -- `Sync` of the core for Sentry.
  unfoldable pub sync_core : Eff W (Result (Unit {0}))
  sync_core = do _ ← around.flush_sentry; pure (ok tt)

module _ {F W H X : Type 0} (around : Surroundings F W H) where
  unfoldable pub with_output : Config → SentryConfig F → Result (Output H) → Result (Logger H X)
  unfolding level_or_info encoder_of new_sentry_core
  with_output cfg sentry_cfg (err e) = err e
  with_output cfg sentry_cfg (ok output) =
      let level = level_or_info (around.parse_level cfg.level) in
      ok (record {
        core = record {
          encoder = encoder_of cfg.format;
          output = output;
          level = level;
          fields = [];
          sentry = if sentry_cfg.enabled then some (new_sentry_core level) else none;
        };
        sentry_enabled = sentry_cfg.enabled;
      })

  unfoldable pub after_set_up : Config → SentryConfig F → Option Error → Eff W (Result (Logger H X))
  unfolding open_output with_output
  after_set_up cfg sentry_cfg (some e) = pure (err e)
  after_set_up cfg sentry_cfg none = do
    output ← open_output around cfg.output
    pure (with_output cfg sentry_cfg output)

  unfoldable pub new : Config → SentryConfig F → Eff W (Result (Logger H X))
  unfolding set_up_sentry after_set_up
  new cfg sentry_cfg = do
    failed ← set_up_sentry around sentry_cfg
    after_set_up cfg sentry_cfg failed

  -- `Sync`: `flush` is that of zap's logger.
  unfoldable pub sync :
      (Logger H X → Eff W (Result (Unit {0}))) → Logger H X → Eff W (Result (Unit {0}))
  sync flush l = if l.sentry_enabled then (do _ ← around.flush_sentry; flush l) else flush l

module _ {X : Type 0} (room : ℕ → ℕ) where
  unfoldable pub sentry_with :
      Option SentryCore → List (Field X) → Eff (Heap (Field X)) (Option SentryCore)
  unfolding core_with
  sentry_with none fields = pure none
  sentry_with (some c) fields = do c' ← core_with room c fields; pure (some c')

  -- `With`: each core of a tee gets the fields; that of zap copies its own.
  unfoldable pub with_fields :
      {H : Type 0} → Logger H X → List (Field X) → Eff (Heap (Field X)) (Logger H X)
  unfolding sentry_with
  with_fields l fields = do
    sentry ← sentry_with l.core.sentry fields
    pure (record l { core = record l.core { fields = l.core.fields ++ fields; sentry = sentry } })
