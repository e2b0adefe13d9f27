-- ===== src/VfsPath/Defs.antt =====
-- `Path` of src/fs/new_vfs/path.rs. A string is the list of its bytes; 47 is '/' and 46 is '.'.
use mankoros.Base.{
  ℕ, zero, suc, Bool, true, false, not, ◌&&◌, ◌||◌, Option, none, some, List, [], ◌∷◌, ◌++◌, ltb,
  ◌==◌, if◌then◌else◌, length, Run, ok, ◌>>=◌, ◌>>◌, assert, unwrap,
}

abbrev pub Name : Type 0
Name = List ℕ

abbrev pub slash : ℕ
slash = 47

abbrev pub dot : ℕ
dot = 46

unfoldable pub same : Name → Name → Bool
same [] [] = true
same [] (d ∷ b) = false
same (c ∷ a) [] = false
same (c ∷ a) (d ∷ b) = (c == d) && same a b

pub record VfsPath : Type 0 where
  pub is_absolute : Bool
  pub is_current : Bool
  pub components : List Name

-- `path.split(./.)` of what follows the bytes of a part
unfoldable pub split_from : List ℕ → List ℕ → List Name
split_from part [] = part ∷ []
split_from part (c ∷ s) =
    let next = split_from [] s in
    let more = split_from (part ++ c ∷ []) s in if c == slash then part ∷ next else more

unfoldable pub is_empty : List Name → Bool
is_empty [] = true
is_empty (n ∷ l) = false

unfoldable pub pop_back : List Name → List Name
pop_back [] = []
pop_back (n ∷ []) = []
pop_back (n ∷ m ∷ l) = n ∷ pop_back (m ∷ l)

-- the loop over the parts, from the components so far
unfoldable pub add_parts : List Name → List Name → List Name
add_parts components [] = components
add_parts components (part ∷ parts) =
    let skipped = add_parts components parts in
    let up = add_parts (pop_back components) parts in
    let down = add_parts (components ++ part ∷ []) parts in
    if same part [] || same part (dot ∷ [])
    then skipped
    else if same part (dot ∷ dot ∷ [])
    then up
    else down

unfoldable pub starts_with_slash : List ℕ → Bool
starts_with_slash [] = false
starts_with_slash (c ∷ s) = c == slash

unfoldable pub from_string : List ℕ → VfsPath
from_string path =
    let components = add_parts [] (split_from [] path) in
    record {
      is_absolute = starts_with_slash path;
      is_current = same path (dot ∷ []) || is_empty components;
      components = components;
    }

-- the components with '/' between them
unfoldable pub join : List Name → List ℕ
join [] = []
join (n ∷ []) = n
join (n ∷ m ∷ l) = n ++ slash ∷ join (m ∷ l)

unfoldable pub to_string : VfsPath → List ℕ
to_string p = if p.is_absolute then slash ∷ join p.components else join p.components

unfoldable pub append : VfsPath → VfsPath → Run VfsPath
append p other =
    assert (not other.is_absolute)
    >> ok (record {
      is_absolute = p.is_absolute;
      is_current = p.is_current && other.is_current;
      components = p.components ++ other.components;
    })

unfoldable pub is_root : VfsPath → Bool
is_root p = p.is_absolute && is_empty p.components

unfoldable pub last_name : List Name → Option Name
last_name [] = none
last_name (n ∷ []) = some n
last_name (n ∷ m ∷ l) = last_name (m ∷ l)

unfoldable pub last : VfsPath → Run Name
last p = assert (not (is_root p)) >> (assert (not p.is_current) >> unwrap (last_name p.components))

unfoldable pub pop_front : List Name → List Name
pop_front [] = []
pop_front (n ∷ l) = l

unfoldable pub remove_head : VfsPath → Run VfsPath
remove_head p = assert (not (is_root p)) >> ok (record p { components = pop_front p.components })

unfoldable pub remove_tail : VfsPath → Run VfsPath
remove_tail p = assert (not (is_root p)) >> ok (record p { components = pop_back p.components })

-- the loop of `starts_with`
unfoldable pub agree : List Name → List Name → Bool
agree [] l = true
agree (n ∷ prefix) [] = true
agree (n ∷ prefix) (m ∷ l) = same m n && agree prefix l

unfoldable pub starts_with : VfsPath → VfsPath → Bool
starts_with p prefix =
    if length prefix.components == 0
    then true
    else if ltb (length p.components) (length prefix.components)
    then false
    else agree prefix.components p.components

unfoldable pub pop_fronts : ℕ → List Name → List Name
pop_fronts zero l = l
pop_fronts (suc n) l = pop_fronts n (pop_front l)

unfoldable pub without_prefix : VfsPath → VfsPath → Run VfsPath
without_prefix p prefix =
    assert (starts_with p prefix)
    >> ok (record p { components = pop_fronts (length prefix.components) p.components })

unfoldable pub split_dir_file : VfsPath → Run (VfsPath × Name)
split_dir_file p = unwrap (last_name p.components) >>= λ file.
    ok (record p { components = pop_back p.components }, file)
