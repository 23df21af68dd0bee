-- ===== src/PkgSort.antt =====
-- pkgSort (package/app/pkgSort/src/main.cpp, and the same file in host-tools/pkgSort): packages in the
-- order in which they are built.
pub mod Ordered
pub mod Order
pub mod Halts
mod Tests
use pc_env_vu.Base.{
  ℕ, zero, suc, Option, none, some, List, [], ◌∷◌, ◌++◌, Bool, true, false, ◌==◌, if◌then◌else◌,
  ◌>>=◌, Text, same, contains,
}

-- `list::unique`: of texts in a row that are the same, the first stays.
pub unique : List Text → List Text
unique [] = []
unique (x ∷ []) = x ∷ []
unique (x ∷ y ∷ ys) = let rest = unique (y ∷ ys) in if same x y then rest else x ∷ rest

-- The fields of a line between spaces, as `getline(sDeps,temp,' ')` gives them: what is behind the last
-- space is a field only where it is not empty.
pub fields : (field : Text) → Text → List Text
fields [] [] = []
fields (c ∷ field) [] = (c ∷ field) ∷ []
fields field (c ∷ line) =
    let ended = field ∷ fields [] line in
    let longer = fields (field ++ (c ∷ [])) line in if c == b' ' then ended else longer

-- `temp.find("make")` is 0, and ends the loop, only where the line does not start with "make".
pub starts_with : Text → Text → Bool
starts_with [] line = true
starts_with (x ∷ xs) [] = false
starts_with (x ∷ xs) (y ∷ line) = let rest = starts_with xs line in if x == y then rest else false

abbrev pub make : Text
make = b'm' ∷ b'a' ∷ b'k' ∷ b'e' ∷ []

-- The first line of the output that is not of make itself. The last piece is what is left where there is
-- none: the `getline` that fails behind a newline empties the text, and behind a line without one it
-- leaves that line.
pub answer : (lines : List Text) → Text
answer [] = []
answer (line ∷ []) = line
answer (line ∷ (next ∷ lines)) =
    let rest = answer (next ∷ lines) in if starts_with make line then rest else line

-- `cmd_res` is what `make -C pkg depend` prints, cut at its newlines: the last piece is empty where the
-- output ends with one.
module _ (cmd_res : Text → List Text) where
  pub get_pkg_deps : Text → List Text
  unfolding unique fields answer
  get_pkg_deps pkg = unique (fields [] (answer (cmd_res pkg)))

  -- The loop over the dependencies, from one on; `visit` is the call for a dependency.
  unfoldable pub up_deps :
      (visit : Text → List Text → List Text → List Text → Option (List Text))
      → (dep_list active_list un_list : List Text) → Option (List Text)
  up_deps visit [] active un = some active
  up_deps visit (i ∷ deps) active un =
      let skipped = up_deps visit deps active un in
      let visited = visit i (get_pkg_deps i) active (un ++ (i ∷ [])) >>= λ active'.
      up_deps visit deps active' (un ++ (i ∷ [])) in
      if contains un i then skipped else if contains active i then skipped else visited

  -- `none` is a call that nests deeper than `fuel`.
  unfoldable pub up_active_list :
      (fuel : ℕ) (pkg : Text) (dep_list active_list un_list : List Text) → Option (List Text)
  unfolding up_deps
  up_active_list zero pkg deps active un = none
  up_active_list (suc fuel) pkg deps active un =
      up_deps (up_active_list fuel) deps active un >>= λ active'.
      some (if contains active' pkg then active' else active' ++ (pkg ∷ []))

  unfoldable pub get_pkg_active_list : (fuel : ℕ) → Text → List Text → Option (List Text)
  get_pkg_active_list fuel pkg active = up_active_list fuel pkg (get_pkg_deps pkg) active (pkg ∷ [])

  -- The loop of `main` over the packages of a list.
  pub sort_all : (fuel : ℕ) → (pkg_list active_list : List Text) → Option (List Text)
  sort_all fuel [] active = some active
  sort_all fuel (i ∷ pkgs) active =
      get_pkg_active_list fuel i active >>= λ active'. sort_all fuel pkgs active'
