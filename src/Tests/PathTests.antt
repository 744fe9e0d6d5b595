-- ===== src/Tests/PathTests.antt =====
-- Paths of RADKernel/core/RADKernel_runtime.cpp at concrete texts.
use radpx_os.Base.{◌≡◌, refl, none, some, [], ◌∷◌, ◌++◌, arith, CString, codes, text_eq}
use radpx_os.Paths.{normalize_path, parts_of, parent_path, is_child_name}
use radpx_os.Paths.Canonical.{IsName}
use radpx_os.Paths.Rendering.{
  rendered, IsCanonical, normalize_path-IsCanonical, normalize_path_idempotent,
}
use radpx_os.Paths.Pieces.{pieces, walk, named}
use radpx_os.Paths.Resolving.{route, parts_of-walk}
use radpx_os.Paths.Parents.{parent_path-is_child_name}

abbrev cwd : CString
cwd = codes "/home/user"

relative_goes_up : normalize_path 96 cwd (codes "../x//./y/") ≡ codes "/home/x/y"
unfolding normalize_path
relative_goes_up = refl

above_root_is_root : normalize_path 96 cwd (codes "/../..") ≡ codes "/"
unfolding normalize_path
above_root_is_root = refl

-- The seventeenth name is lost, and so is what leads up again behind it.
cut_after_sixteen :
    normalize_path 96 cwd (codes "/a/a/a/a/a/a/a/a/a/a/a/a/a/a/a/a/secret/../..")
    ≡ codes "/a/a/a/a/a/a/a/a/a/a/a/a/a/a/a/a"
unfolding normalize_path
cut_after_sixteen = refl

not_a_grandchild : is_child_name (codes "/home") (codes "/home/user/x") ≡ none
unfolding is_child_name
not_a_grandchild = refl

normalize_path-IsCanonical_example : IsCanonical (normalize_path 96 cwd (codes "../x//./y/"))
unfolding parts_of rendered
normalize_path-IsCanonical_example =
    normalize_path-IsCanonical 96 cwd (codes "../x//./y/") (omega arith)

normalize_path_idempotent_example :
    normalize_path 96 (codes "/tmp") (normalize_path 96 cwd (codes "../x//./y/"))
    ≡ normalize_path 96 cwd (codes "../x//./y/")
unfolding parts_of rendered
normalize_path_idempotent_example =
    normalize_path_idempotent 96 cwd (codes "/tmp") (codes "../x//./y/") (omega arith) (omega arith)

parts_of-walk_example : parts_of cwd (codes "../x//./y/") ≡ walk [] (route cwd (codes "../x//./y/"))
unfolding pieces named
parts_of-walk_example =
    parts_of-walk (codes "home/user") (b'.') (codes "./x//./y/") (omega arith) (omega arith)

home-IsName : IsName (codes "home")
unfolding text_eq
home-IsName = (omega arith, refl, refl, omega arith)

user-IsName : IsName (codes "user")
unfolding text_eq
user-IsName = (omega arith, refl, refl, omega arith)

parent_path-is_child_name_example :
    (parent_path 96 (rendered ((codes "home" ∷ []) ++ codes "user" ∷ []))
      ≡ rendered (codes "home" ∷ []))
    × (is_child_name
          (rendered (codes "home" ∷ []))
          (rendered ((codes "home" ∷ []) ++ codes "user" ∷ []))
        ≡ some (codes "user"))
unfolding rendered
parent_path-is_child_name_example =
    parent_path-is_child_name 96 (codes "home" ∷ []) (codes "user") (home-IsName, tt) user-IsName
      (omega arith)
