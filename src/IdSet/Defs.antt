-- ===== src/IdSet/Defs.antt =====
-- The operations of a `Set<string>` that frontend/src/pages/Dashboard.tsx uses.
use migration_safety_engine.Prelude.{
  Bool, List, Text, [], any, filter, if◌then◌else◌, not, text_eq, ◌++◌, ◌∷◌,
}

abbrev pub IdSet : Type 0
IdSet = List Text

-- `s.has(id)`
unfoldable pub has : Text → IdSet → Bool
has id s = any (λ j. text_eq j id) s

-- `s.add(id)`
unfoldable pub insert : Text → IdSet → IdSet
insert id s = if has id s then s else s ++ id ∷ []

-- `s.delete(id)`
unfoldable pub remove : Text → IdSet → IdSet
remove id s = filter (λ j. not (text_eq j id)) s

-- `for (const id of ids) s.add(id)` and `for (const id of ids) s.delete(id)`
unfoldable pub insert_all : List Text → IdSet → IdSet
insert_all [] s = s
insert_all (id ∷ ids) s = insert_all ids (insert id s)

unfoldable pub remove_all : List Text → IdSet → IdSet
remove_all [] s = s
remove_all (id ∷ ids) s = remove_all ids (remove id s)
