-- ===== src/Base/Map.antt =====
-- JavaScript's `Map<string, V>` as an association list in insertion order.
use Prim.Native.String.{String}
use text.Mathlib.Text.{◌==◌ as str_eq}
use text.Mathlib.TextEquality.{eq_iff}
use mathlib.Core.Path.{◌≡◌, refl}
use mathlib.Core.Bool.{Bool, true, false, ◌||◌}
use mathlib.Core.Logic.{inl, inr}
use mathlib.Core.Option.{Option, none, some}
use mathlib.Core.List.{List, [], ◌∷◌}
use native.Mathlib.Omega.{arith}
use gyges_research_layer.Base.Tests.{if◌then◌else◌, is_some, Option-cases, Bool-cases}

abbrev pub Map {ℓ} : Type ℓ → Type ℓ
Map V = List (String × V)

-- What `f` makes of a value, if there is one.
abbrev pub map_option {ℓ κ} : {A : Type ℓ} {B : Type κ} → (A → B) → Option A → Option B
map_option f none = none
map_option f (some a) = some (f a)

-- Whether a key is on a list, `ids.includes(k)`.
unfoldable pub elem : String → List String → Bool
elem k [] = false
elem k (j ∷ js) = str_eq j k || elem k js

module _ {ℓ} {V : Type ℓ} where
  unfoldable pub get : String → Map V → Option V
  get k [] = none
  get k ((j, v) ∷ m) = if str_eq j k then some v else get k m

  abbrev pub has : String → Map V → Bool
  has k m = is_some (get k m)

  -- A key that is present keeps its place; a new one goes to the end.
  unfoldable pub set : String → V → Map V → Map V
  set k v [] = (k, v) ∷ []
  set k v ((j, w) ∷ m) = if str_eq j k then (j, v) ∷ m else (j, w) ∷ set k v m

  unfoldable pub delete : String → Map V → Map V
  delete k [] = []
  delete k ((j, w) ∷ m) = let rest = delete k m in if str_eq j k then rest else (j, w) ∷ rest

  -- A write to the object that is stored under a key.
  unfoldable pub modify : String → (V → V) → Map V → Map V
  modify k f [] = []
  modify k f ((j, w) ∷ m) = if str_eq j k then (j, f w) ∷ m else (j, w) ∷ modify k f m

  -- A write to every stored object in turn.
  unfoldable pub modify_all : (V → V) → Map V → Map V
  modify_all f [] = []
  modify_all f ((j, w) ∷ m) = (j, f w) ∷ modify_all f m

  unfoldable pub values : Map V → List V
  values [] = []
  values ((j, w) ∷ m) = w ∷ values m

  unfoldable pub keys : Map V → List String
  keys [] = []
  keys ((j, w) ∷ m) = j ∷ keys m

  -- A key that is present is listed.
  pub elem-keys : (k : String) (v : V) (m : Map V) → get k m ≡ some v → elem k (keys m) ≡ true
  unfolding get keys elem
  elem-keys k v [] h = absurd (ground (arith, h))
  elem-keys k v ((j, w) ∷ m) h = elim (Bool-cases (str_eq j k)) [
    | inl e ↦ ground (arith, e)
    | inr e ↦ ground (arith, e, elem-keys k v m (ground (arith, e, h)))
  ]

  pub get-set :
      (k j : String) (v : V) (m : Map V)
      → get j (set k v m) ≡ (if str_eq k j then some v else get j m)
  unfolding get set
  get-set k j v [] = refl
  get-set k j v ((i, w) ∷ m) = ground (arith, eq_iff k j, eq_iff i k, eq_iff i j, get-set k j v m)

  pub get-delete :
      (k j : String) (m : Map V) → get j (delete k m) ≡ (if str_eq k j then none else get j m)
  unfolding get delete
  get-delete k j [] = ground arith
  get-delete k j ((i, w) ∷ m) = ground (arith, eq_iff k j, eq_iff i k, eq_iff i j, get-delete k j m)

  pub get-modify :
      (k j : String) (f : V → V) (m : Map V)
      → get j (modify k f m) ≡ (if str_eq k j then map_option f (get j m) else get j m)
  unfolding get modify
  get-modify k j f [] = ground arith
  get-modify k j f ((i, w) ∷ m) =
      ground (arith, eq_iff k j, eq_iff i k, eq_iff i j, get-modify k j f m)

  pub get-modify_all :
      (j : String) (f : V → V) (m : Map V) → get j (modify_all f m) ≡ map_option f (get j m)
  unfolding get modify_all
  get-modify_all j f [] = refl
  get-modify_all j f ((i, w) ∷ m) = ground (arith, eq_iff i j, get-modify_all j f m)

  -- A write to the objects stored under the keys of a list, one after the other.
  unfoldable pub modify_each : List String → (V → V) → Map V → Map V
  modify_each [] f m = m
  modify_each (k ∷ ks) f m = modify_each ks f (modify k f m)

  -- Where writing twice is writing once, each listed key is written and no other.
  pub get-modify_each :
      (ks : List String) (j : String) (f : V → V) (m : Map V)
      → ((v : V) → f (f v) ≡ f v)
      → get j (modify_each ks f m) ≡ (if elem j ks then map_option f (get j m) else get j m)
  unfolding modify_each elem
  get-modify_each [] j f m i = refl
  get-modify_each (k ∷ ks) j f m i = elim (Option-cases (get j m)) [
    | inl e ↦
        ground (arith, e, eq_iff k j, get-modify k j f m, get-modify_each ks j f (modify k f m) i)
    | inr (v, e) ↦
        ground
          (arith, e, i v, eq_iff k j, get-modify k j f m, get-modify_each ks j f (modify k f m) i)
  ]
