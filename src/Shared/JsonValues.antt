-- ===== src/Shared/JsonValues.antt =====
-- JSON values as Python reads them. An object keeps the order of its keys; `get` is `dict.get`.
use mathlib.Core.Bool.{Bool}
use mathlib.Core.Option.{Option, none, some}
use mathlib.Core.List.{List, [], ◌∷◌}
use Prim.Native.Nat.{ℕ}
use xserver_mail_lineworks.Shared.Tests.{if◌then◌else◌}
use xserver_mail_lineworks.Shared.Equality.{◌==◌, nat_eq, list_eq}
use xserver_mail_lineworks.Shared.Texts.{Text}

-- `number` is any number but a natural one, by its literal.
mutual
  pub data Json : Type 0 where
    null : Json
    bool : Bool → Json
    nat : ℕ → Json
    number : Text → Json
    str : Text → Json
    arr : Items → Json
    obj : Fields → Json

  pub data Items : Type 0 where
    nil : Items
    item : Json → Items → Items

  pub data Fields : Type 0 where
    end : Fields
    field : Text → Json → Fields → Fields

unfoldable pub get_field : Text → Fields → Option Json
get_field k end = none
get_field k (field j v fs) = let rest = get_field k fs in if j == k then some v else rest

abbrev pub items_list : Items → List Json
items_list nil = []
items_list (item v vs) = v ∷ items_list vs

-- A list of strings as a value.
abbrev pub strs : List Text → Items
strs [] = nil
strs (x ∷ xs) = item (str x) (strs xs)
