-- ===== src/Domain/Ports.antt =====
-- internal/domain/ports.go: the interfaces between the services and what they run on. Every method
-- may read and change the world `W`; a context is not an argument, its cancellation is one of the
-- errors that a method may return. A method that fills in its argument returns the new value.
use search_engine_service.Base.{ℕ, String, List, Option}
use search_engine_service.Base.Int.{ℤ}
use search_engine_service.Base.Effects.{Result, Eff}
use search_engine_service.Domain.Content.{Content, Duration}
use search_engine_service.Domain.Search.{SearchParams, SearchResult}

-- `[]byte`.
abbrev pub Bytes : Type 0
Bytes = List ℕ

pub record ContentRepository (F W : Type 0) : Type 0 where
  pub search : SearchParams → Eff W (Result (SearchResult F))
  pub get_by_id : String → Eff W (Result (Option (Content F)))
  pub get_by_provider_and_external_id : String → String → Eff W (Result (Option (Content F)))
  pub upsert : Content F → Eff W (Result (Content F))
  pub bulk_upsert : List (Content F) → Eff W (Result (List (Content F)))
  pub delete : String → Eff W (Result (Unit {0}))
  pub count : SearchParams → Eff W (Result ℤ)

pub record Provider (F W : Type 0) : Type 0 where
  pub name : String
  pub fetch : Eff W (Result (List (Content F)))
  pub health_check : Eff W (Result (Unit {0}))

-- A missing key is `none` with no error.
pub record Cache (W : Type 0) : Type 0 where
  pub get : String → Eff W (Result (Option Bytes))
  pub set : String → Bytes → Duration → Eff W (Result (Unit {0}))
  pub delete : String → Eff W (Result (Unit {0}))
  pub clear : Eff W (Result (Unit {0}))
