-- ===== src/Json.antt =====
-- JSON values as the program reads them: `dict.get`, truth, `int` and `str`. Numbers are integers.
use re_remote_dev.Prelude.{
  Bool, Option, String, false, if◌then◌else◌, leb, none, not, some, suc, true, zero, ℕ, ◌&&◌, ◌==◌,
}
use re_remote_dev.Prelude.Int.{negsuc, pos, ℤ}
use re_remote_dev.Prelude.Text.{decimal, int_of_text, is_empty, len, ◌<>◌}

mutual
  pub data Json : Type 0 where
    null : Json
    bool : Bool → Json
    num : ℤ → Json
    str : String → Json
    arr : Items → Json
    obj : Fields → Json

  pub data Items : Type 0 where
    nil : Items
    cons : Json → Items → Items

  pub data Fields : Type 0 where
    end : Fields
    field : String → Json → Fields → Fields

-- d.get(k)
unfoldable pub get_field : String → Fields → Option Json
get_field k end = none
get_field k (field j v fs) = if j == k then some v else get_field k fs

-- bool(v)
abbrev pub truthy : Json → Bool
truthy null = false
truthy (bool b) = b
truthy (num (pos zero)) = false
truthy (num _) = true
truthy (str s) = not (is_empty s)
truthy (arr nil) = false
truthy (arr (cons _ _)) = true
truthy (obj end) = false
truthy (obj (field _ _ _)) = true

-- bool(d.get(k, default))
abbrev pub truthy_or : Bool → Option Json → Bool
truthy_or default none = default
truthy_or default (some v) = truthy v

-- int(v)
abbrev pub py_int : Json → Option ℤ
py_int (num n) = some n
py_int (bool b) = some (if b then pos 1 else pos 0)
py_int (str s) = int_of_text s
py_int _ = none

abbrev show_int : ℤ → String
show_int (pos n) = decimal n
show_int (negsuc n) = "-" <> decimal (suc n)

-- str(v); `repr` is Python's text of a list or an object.
abbrev pub py_str : (Json → String) → Json → String
py_str repr null = "None"
py_str repr (bool b) = if b then "True" else "False"
py_str repr (num n) = show_int n
py_str repr (str s) = s
py_str repr v = repr v

-- `v` if it is a text that is not empty and has at most `limit` characters
abbrev pub short_text : ℕ → Option Json → Option String
short_text limit (some (str s)) = if not (is_empty s) && leb (len s) limit then some s else none
short_text limit _ = none

-- `v` if it is an object
abbrev pub as_object : Option Json → Option Fields
as_object (some (obj fs)) = some fs
as_object _ = none

-- `v` if it is a text
abbrev pub as_text : Option Json → Option String
as_text (some (str s)) = some s
as_text _ = none
