-- ===== src/Common/Json.antt =====
-- JSON values, as `JSON.parse` gives them. A number is `nat` if it is a nonnegative integer, and
-- else `num` with its text.
use Prim.Native.Nat.{ℕ}
use mathlib.Core.Bool.{Bool, true, false}
use mathlib.Core.Option.{Option, none, some}
use code_quest.Common.Tests.{if◌then◌else◌}
use code_quest.Common.Equality.{Str, ◌==◌, str_eq}

mutual
  pub data Json : Type 0 where
    null : Json
    bool : Bool → Json
    nat : ℕ → Json
    num : Str → Json
    str : Str → Json
    arr : Items → Json
    obj : Fields → Json

  pub data Items : Type 0 where
    nil : Items
    cons : Json → Items → Items

  pub data Fields : Type 0 where
    end : Fields
    field : Str → Json → Fields → Fields

-- the value of a property; `none` for a missing one
unfoldable pub prop : Str → Fields → Option Json
prop k end = none
prop k (field j v fs) = if j == k then some v else prop k fs

-- `isRecord`: `typeof v === 'object' && v !== null`, so an array is a record too
abbrev pub is_record : Json → Bool
is_record (obj _) = true
is_record (arr _) = true
is_record _ = false
