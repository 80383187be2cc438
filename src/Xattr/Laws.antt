-- ===== src/Xattr/Laws.antt =====
-- What the list helpers of xattr.rs do to the attributes by name.
use slicefs.Base.{◌≤◌, ◌≡◌, refl, none, some, [], ◌∷◌, ◌++◌, length, arith, ltb, if◌then◌else◌}
use slicefs.Base.Words.{Bytes}
use slicefs.Base.Keys.{lex_same, lex_same_iff}
use slicefs.Base.Results.{is_some}
use slicefs.Xattr.{
  Xattrs, set_xattr_entry, get_xattr_entry, list_xattr_names, remove_xattr_entry, retain_ne,
}

-- After setting an attribute its name has the new value, and every other name the value it had.
pub get_xattr_entry-set_xattr_entry :
    (xattrs : Xattrs) (name other value : Bytes)
    → get_xattr_entry (set_xattr_entry xattrs name value) other
      ≡ (if lex_same name other then some value else get_xattr_entry xattrs other)
unfolding get_xattr_entry set_xattr_entry
get_xattr_entry-set_xattr_entry [] name other value = refl
get_xattr_entry-set_xattr_entry ((k, v) ∷ xattrs) name other value = ground (
  arith,
  get_xattr_entry-set_xattr_entry xattrs name other value,
  lex_same_iff k name,
  lex_same_iff name other,
  lex_same_iff k other,
)

get_xattr_entry-retain_ne :
    (xattrs : Xattrs) (name other : Bytes)
    → get_xattr_entry (retain_ne name xattrs) other
      ≡ (if lex_same name other then none else get_xattr_entry xattrs other)
unfolding get_xattr_entry retain_ne
get_xattr_entry-retain_ne [] name other = ground arith
get_xattr_entry-retain_ne ((k, v) ∷ xattrs) name other = ground (
  arith,
  get_xattr_entry-retain_ne xattrs name other,
  lex_same_iff k name,
  lex_same_iff name other,
  lex_same_iff k other,
)

length-retain_ne : (xattrs : Xattrs) (name : Bytes) → length (retain_ne name xattrs) ≤ length xattrs
unfolding retain_ne
length-retain_ne [] name = omega arith
length-retain_ne ((k, v) ∷ xattrs) name = ground (arith, length-retain_ne xattrs name)

retain_ne_shorter :
    (xattrs : Xattrs) (name : Bytes)
    → ltb (length (retain_ne name xattrs)) (length xattrs) ≡ is_some (get_xattr_entry xattrs name)
unfolding retain_ne get_xattr_entry
retain_ne_shorter [] name = refl
retain_ne_shorter ((k, v) ∷ xattrs) name =
    ground (arith, retain_ne_shorter xattrs name, length-retain_ne xattrs name)

-- Removing an attribute reports whether the name was there; the name is then missing, and every
-- other name has the value it had.
pub remove_xattr_entry_lem :
    (xattrs : Xattrs) (name : Bytes)
    → ((remove_xattr_entry xattrs name).0 ≡ is_some (get_xattr_entry xattrs name))
      × ((other : Bytes)
          → get_xattr_entry (remove_xattr_entry xattrs name).1 other
            ≡ (if lex_same name other then none else get_xattr_entry xattrs other))
unfolding remove_xattr_entry
remove_xattr_entry_lem xattrs name =
    (retain_ne_shorter xattrs name, get_xattr_entry-retain_ne xattrs name)

-- Setting an attribute that is there keeps the list of names, and a new one comes last.
pub list_xattr_names-set_xattr_entry :
    (xattrs : Xattrs) (name value : Bytes)
    → list_xattr_names (set_xattr_entry xattrs name value) ≡ (
        if is_some (get_xattr_entry xattrs name)
        then list_xattr_names xattrs
        else list_xattr_names xattrs ++ name ∷ [])
unfolding list_xattr_names set_xattr_entry get_xattr_entry
list_xattr_names-set_xattr_entry [] name value = refl
list_xattr_names-set_xattr_entry ((k, v) ∷ xattrs) name value =
    ground (arith, list_xattr_names-set_xattr_entry xattrs name value)
