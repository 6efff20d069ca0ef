-- ===== src/Core/Files.antt =====
-- Class File of src/kernel/core/file.cc: the tree of files. A file is the address of its object; a name is
-- the bytes of the string. The lists of children run through `links`, `prec` being `prev`. `heap` holds
-- the addresses that the coming allocations return, 0 for a failure.
pub mod Children
pub mod Names
pub mod Creation
mod Tests
use km_os.Prelude.{
  ℕ, zero, suc, ◌-◌, ◌/◌, List, [], ◌∷◌, Option, none, some, Bool, true, false, if◌then◌else◌, ◌==◌,
  update, Links, set_next, set_prev, push_front, add32, same_bytes, u32_mod,
}

abbrev pub type_file : ℕ
type_file = 0

abbrev pub type_directory : ℕ
type_directory = 1

abbrev pub type_device : ℕ
type_device = 2

abbrev pub type_link : ℕ
type_link = 4

abbrev pub return_ok : ℕ
return_ok = 0

-- PARAM_NULL, ERROR_PARAM and NOT_DEFINED as 32-bit values.
abbrev pub param_null : ℕ
param_null = u32_mod - 3

abbrev pub not_defined : ℕ
not_defined = u32_mod - 1

-- The fields of class File, less `next` and `prec`.
pub record File : Type 0 where
  pub name : List ℕ
  pub size : ℕ
  pub type : ℕ
  pub inode : ℕ
  pub link : ℕ
  pub master : ℕ
  pub parent : ℕ
  pub child : ℕ
  pub map_memory : ℕ

-- All files, the counter of inodes, the current process, and the heap.
pub record Tree : Type 0 where
  pub file : ℕ → File
  pub links : Links
  pub inode_system : ℕ
  pub pcurrent : ℕ
  pub heap : List ℕ

abbrev pub put_file : ℕ → File → Tree → Tree
put_file p f s = record s { file = update s.file p f }

-- `strreplace`
abbrev pub str_replace : ℕ → ℕ → List ℕ → List ℕ
str_replace a to [] = []
str_replace a to (c ∷ cs) = (if c == a then to else c) ∷ str_replace a to cs

-- `/`, `\`, `?`, `:`, `>`, `<`, `*` and `"`
abbrev pub invalid_chars : List ℕ
invalid_chars = 47 ∷ 92 ∷ 63 ∷ 58 ∷ 62 ∷ 60 ∷ 42 ∷ 34 ∷ []

abbrev pub char_replacement : ℕ
char_replacement = 95

-- The loop of `checkName` over the characters.
unfoldable pub replace_all : List ℕ → List ℕ → List ℕ
replace_all [] name = name
replace_all (c ∷ cs) name = replace_all cs (str_replace c char_replacement name)

-- `File::checkName` on a name.
unfoldable pub check_name : List ℕ → List ℕ
unfolding replace_all
check_name name = replace_all invalid_chars name

abbrev pub next_address : List ℕ → ℕ
next_address [] = 0
next_address (p ∷ ps) = p

abbrev pub addresses_left : List ℕ → List ℕ
addresses_left [] = []
addresses_left (p ∷ ps) = ps

-- `new File(n, t)`, where memory is left.
unfoldable pub new_file : List ℕ → ℕ → Tree → ℕ × Tree
unfolding check_name
new_file n t s =
    let p = next_address s.heap in
    (
      p,
      record s {
        heap = addresses_left s.heap;
        inode_system = add32 s.inode_system 1;
        links = record { next = update s.links.next p 0; prev = update s.links.prev p 0 };
        file = update s.file p (record {
          name = check_name n;
          size = 0;
          type = t;
          inode = s.inode_system;
          link = 0;
          master = s.pcurrent;
          parent = 0;
          child = 0;
          map_memory = 0;
        });
      },
    )

-- `File::addChild`: what it returns, and the tree.
unfoldable pub add_child : ℕ → ℕ → Tree → ℕ × Tree
unfolding push_front
add_child this n s = if n == 0 then (param_null, s) else (
  return_ok,
  put_file this (record (update s.file n (record (s.file n) { parent = this }) this) { child = n })
      (record s {
        file = update s.file n (record (s.file n) { parent = this });
        links = push_front n (s.file this).child s.links;
      }),
)

-- `File::createChild`
unfoldable pub create_child : ℕ → List ℕ → ℕ → Tree → ℕ × Tree
create_child this n t s = let r = new_file n t s in (r.0, (add_child this r.0 r.1).1)

-- `File::setName`
unfoldable pub set_name : ℕ → List ℕ → Tree → Tree
unfolding check_name
set_name this n s = put_file this (record (s.file this) { name = check_name n }) s

-- `File::find` from the child `fp` on: the file, 0 for none.
unfoldable pub find_from : ℕ → ℕ → List ℕ → Tree → Option ℕ
find_from zero fp n s = none
find_from (suc fuel) fp n s =
    let rest = find_from fuel (s.links.next fp) n s in
    if fp == 0 then some 0 else if same_bytes (s.file fp).name n then some fp else rest

-- `File::find`
unfoldable pub find : ℕ → ℕ → List ℕ → Tree → Option ℕ
unfolding find_from
find fuel this n s = find_from fuel (s.file this).child n s

-- The destructor's writes to the file's neighbours; `none` is the write to a parent that is null.
unfoldable pub detach : ℕ → Tree → Option Tree
detach this s =
    let prec = s.links.prev this in
    let next = s.links.next this in
    let parent = (s.file this).parent in
    if prec == 0
    then (if parent == 0
        then none
        else some (
            put_file parent (record (s.file parent) { child = next })
              (record s { links = set_prev next 0 s.links })))
    else if next == 0
    then some (record s { links = set_next prec 0 s.links })
    else some (record s { links = set_prev next prec (set_next prec next s.links) })

-- `delete` of a file, which deletes its children. `none` is a fault, or more children, one below or
-- beside the other, than there is fuel.
unfoldable mutual
  pub delete : ℕ → ℕ → Tree → Option Tree
  delete zero this s = none
  delete (suc fuel) this s = elim (detach this s) [
    | none ↦ none
    | some t ↦ delete_children fuel (t.file this).child t
  ]

  -- The destructor's loop over the children from `n` on.
  pub delete_children : ℕ → ℕ → Tree → Option Tree
  delete_children zero n s = none
  delete_children (suc fuel) n s =
      if n == 0
      then some s
      else elim (delete fuel n s) [ none ↦ none | some t ↦ delete_children fuel (s.links.next n) t ]

-- `stat_fs`, the fields that `File::stat` does not set to 0.
pub record Stat : Type 0 where
  pub st_mode : ℕ
  pub st_nlink : ℕ
  pub st_size : ℕ
  pub st_blksize : ℕ
  pub st_blocks : ℕ

-- `File::stat`
unfoldable pub stat : ℕ → Tree → Stat
stat this s = record {
  st_mode = (s.file this).type;
  st_nlink = 1;
  st_size = (s.file this).size;
  st_blksize = 4096;
  st_blocks = add32 (s.file this).size 4095 / 4096;
}
