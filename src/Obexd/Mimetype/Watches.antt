-- ===== src/Obexd/Mimetype/Watches.antt =====
-- src/mimetype.c: the watches on objects, and the map that they stand for.
use map_client.Base.{ℕ, ◌≡◌, Option, some, none, List, [], ◌∷◌, ◌++◌, ◌==◌, if◌then◌else◌}
use map_client.Obexd.Mimetype.{eperm}

-- `object` is the object's address, `func` the function with its user data.
pub record IoWatch (A : Type 0) : Type 0 where
  pub object : ℕ
  pub func : A

module _ {A : Type 0} where
  unfoldable pub find_io_watch : List (IoWatch A) → ℕ → Option (IoWatch A)
  find_io_watch [] object = none
  find_io_watch (w ∷ ws) object =
      let rest = find_io_watch ws object in if w.object == object then some w else rest

  unfoldable pub reset_io_watch : List (IoWatch A) → ℕ → List (IoWatch A)
  reset_io_watch [] object = []
  reset_io_watch (w ∷ ws) object =
      let rest = reset_io_watch ws object in if w.object == object then ws else w ∷ rest

  unfoldable pub set_io_watch : List (IoWatch A) → ℕ → Option A → List (IoWatch A) × ℕ
  set_io_watch ws object none = (reset_io_watch ws object, 0)
  set_io_watch ws object (some f) = elim (find_io_watch ws object) [
    | some _ ↦ (ws, eperm)
    | none ↦ (ws ++ (record { object = object; func = f } ∷ []), 0)
  ]

  -- Each object has one watch at most.
  abbrev pub IsSingle : List (IoWatch A) → Type 0
  IsSingle [] = Unit {0}
  IsSingle (w ∷ ws) = (find_io_watch ws w.object ≡ none) × IsSingle ws

  -- The map of a list of watches, and what setting one does to a map.
  abbrev pub watched : List (IoWatch A) → ℕ → Option A
  watched ws object = elim (find_io_watch ws object) [ none ↦ none | some w ↦ some w.func ]

  abbrev pub map_set : (ℕ → Option A) → ℕ → Option A → ℕ → Option A
  map_set m object none other = if other == object then none else m other
  map_set m object (some f) other = elim (m object) [
    | some _ ↦ m other
    | none ↦ if other == object then some f else m other
  ]
