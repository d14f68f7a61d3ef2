-- ===== src/Path/Examples.antt =====
-- The components of `a//b` and of `/a/bc`.
use monaka_fs.Prelude.{◌≡◌, refl, ◌↔◌, List, [], ◌∷◌}
use monaka_fs.Key.{Name}
use monaka_fs.Path.{components}
use monaka_fs.Path.Join.{join, components-join}
use monaka_fs.Path.Spelling.{Spells, components-Spells}

abbrev names : List Name
names = (b'a' ∷ []) ∷ (b'b' ∷ b'c' ∷ []) ∷ []

abbrev doubled : Name
doubled = b'a' ∷ b'/' ∷ b'/' ∷ b'b' ∷ []

abbrev letters : List Name
letters = (b'a' ∷ []) ∷ (b'b' ∷ []) ∷ []

components-join_example : components (join names) ≡ names
components-join_example = components-join names ((refl, tt), ((refl, (refl, tt)), tt))

components-Spells_example : Spells letters doubled ↔ (components doubled ≡ letters)
components-Spells_example = components-Spells letters doubled
