-- ===== src/Tests/LoggerTests.antt =====
-- internal/logger/zap.go: a line of two fields, by a logger with one of the same key.
use search_engine_service.Base.{ℕ, ◌+◌, ◌≤◌, ◌≡◌, refl, String, [], ◌∷◌, ◌++◌, none, some, arith}
use search_engine_service.Base.Slices.{Heap, empty_slice, elements, IsSlice, empty_slice-IsSlice}
use search_engine_service.Base.Int.{ℤ, pos}
use search_engine_service.Base.Dict.{lookup}
use search_engine_service.Domain.Content.{Duration}
use search_engine_service.Logger.{
  Field, int64_type, string_type, other_type, SentryCore, number, Entry, error_level, core_with,
  event_of, value_of, fields_to_map,
}
use search_engine_service.Logger.Fields.{last_value, child, event_of-extra, core_with-overwrites}
use search_engine_service.Tests.Fakes.{toy}

abbrev count_field : ℤ → Field (Unit {0})
count_field n = record {
  key = "count";
  type = int64_type;
  integer = n;
  string = "";
  interface = none;
}

abbrev name_field : Field (Unit {0})
name_field = record {
  key = "provider";
  type = string_type;
  integer = pos 0;
  string = "a";
  interface = none;
}

abbrev nil_field : Field (Unit {0})
nil_field = record {
  key = "count";
  type = other_type;
  integer = pos 0;
  string = "";
  interface = none;
}

abbrev duration_text : Duration → String
duration_text d = "d"

abbrev entry : Entry
entry = record { level = error_level; message = "m"; logger_name = ""; time = pos 0 }

abbrev core : SentryCore
core = record { level = pos 0; fields = empty_slice }

abbrev bare : Heap (Field (Unit {0}))
bare = record { arrays = λ i. []; next = 0 }

-- The runtime doubles an array.
abbrev double : ℕ → ℕ
double n = n

abbrev made : SentryCore × Heap (Field (Unit {0}))
made = child double core (count_field (pos 1) ∷ []) (count_field (pos 2) ∷ []) bare

made-IsSlice : IsSlice made.0.fields made.1
unfolding core_with
made-IsSlice = record { shown = omega arith; there = omega arith }

event_of-extra_example :
    lookup "count"
      (event_of {F = ℤ} duration_text double made.0 entry
        (name_field ∷ nil_field ∷ [])
        made.1).0.extra
    ≡ some (number (pos 2))
unfolding last_value value_of
event_of-extra_example =
    event_of-extra {F = ℤ} duration_text double core (count_field (pos 1) ∷ [])
      (count_field (pos 2) ∷ []) (name_field ∷ nil_field ∷ []) entry "count" bare made.1
      (empty_slice-IsSlice bare) made-IsSlice refl

-- Three fields in an array of six.
abbrev parent : SentryCore × Heap (Field (Unit {0}))
parent = core_with double core (name_field ∷ name_field ∷ name_field ∷ []) bare

parent-IsSlice : IsSlice parent.0.fields parent.1
unfolding core_with
parent-IsSlice = record { shown = omega arith; there = omega arith }

parent_fits : parent.0.fields.size + 1 ≤ parent.0.fields.capacity
unfolding core_with
parent_fits = omega arith

abbrev first_child : SentryCore × Heap (Field (Unit {0}))
first_child = core_with double parent.0 (count_field (pos 1) ∷ []) parent.1

abbrev second_child : SentryCore × Heap (Field (Unit {0}))
second_child = core_with double parent.0 (count_field (pos 2) ∷ []) first_child.1

core_with-overwrites_example :
    (event_of {F = ℤ} duration_text double first_child.0 entry [] second_child.1).0.extra
    ≡ fields_to_map duration_text
        ((elements parent.0.fields parent.1 ++ count_field (pos 2) ∷ []) ++ [])
core_with-overwrites_example =
    core_with-overwrites {F = ℤ} duration_text double parent.0 (count_field (pos 1) ∷ [])
      (count_field (pos 2) ∷ []) [] entry parent.1 parent-IsSlice parent_fits refl
