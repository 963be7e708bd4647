-- ===== src/Filter.antt =====
-- The black and the white list of main.c: load_ip_file and is_ignore.
pub mod Lines
pub mod Texts
pub mod Loading
use graftcp.Prelude.{
  ℕ, ◌+◌, ◌-◌, Bytes, Bool, true, false, not, Option, none, some, List, [], ◌∷◌, ◌++◌, ltb, ◌==◌,
  if◌then◌else◌, take, length,
}
use graftcp.StringSet.{
  StrSet, CString, Run, ok, exit, ◌>>=◌, str_set_new, str_set_put, is_str_set_member,
}

pub record Lists : Type 0 where
  pub blacklist_ip : Option StrSet
  pub whitelacklist_ip : Option StrSet

black_hit : Option StrSet → Bytes → Bool
black_hit none ip = false
black_hit (some set) ip = is_str_set_member set ip

white_miss : Option StrSet → Bytes → Bool
white_miss none ip = false
white_miss (some set) ip = not (is_str_set_member set ip)

unfoldable pub is_ignore : Lists → Bytes → Bool
unfolding black_hit white_miss
is_ignore l ip =
    if black_hit l.blacklist_ip ip
    then true
    else if white_miss l.whitelacklist_ip ip
    then true
    else false

-- A byte in front of the first line.
pub join : ℕ → List Bytes → List Bytes
join c [] = (c ∷ []) ∷ []
join c (l ∷ ls) = (c ∷ l) ∷ ls

-- The lines that getline returns, each with its newline; a last one may have none.
pub getlines : Bytes → List Bytes
unfolding join
getlines [] = []
getlines (c ∷ file) =
    let rest = getlines file in if c == b'\n' then (c ∷ []) ∷ rest else join c rest

-- `line[read - 1] = '\0'`: the line read as a string, up to its first NUL.
pub c_string : Bytes → Bytes
c_string [] = []
c_string (c ∷ s) = if c == 0 then [] else c ∷ c_string s

pub cut_line : Bytes → Bytes
unfolding c_string
cut_line line = c_string (take (length line - 1) line)

-- The loop of load_ip_file; the heap is free from `next` on, and its calls of malloc succeed.
unfoldable pub load_lines : StrSet → ℕ → List Bytes → Run (StrSet × ℕ)
unfolding cut_line
load_lines set next [] = ok (set, next)
load_lines set next (line ∷ lines) = elim (ltb (length line) 7) [
  | true ↦ load_lines set next lines
  | false ↦ do
    set' ← str_set_put set (record { address = next; chars = cut_line line }) (some (next + 1))
    load_lines set' (next + 2) lines
]

-- `if (*set == NULL) *set = str_set_new();`
unfoldable pub new_if_null : Option StrSet → ℕ → Run (StrSet × ℕ)
new_if_null none next = do set ← str_set_new (some next); ok (set, next + 1)
new_if_null (some set) next = ok (set, next)

-- The file is its contents, `none` where fopen fails.
unfoldable pub load_ip_file : Option Bytes → Option StrSet → ℕ → Run (StrSet × ℕ)
unfolding load_lines new_if_null getlines
load_ip_file none set next = exit 1
load_ip_file (some file) set next = do
  (s, next') ← new_if_null set next
  load_lines s next' (getlines file)

-- load_blackip_file and load_whiteip_file
unfoldable pub load_blackip_file : Option Bytes → Lists → ℕ → Run (Lists × ℕ)
load_blackip_file file l next = do
  (s, next') ← load_ip_file file l.blacklist_ip next
  ok (record l { blacklist_ip = some s }, next')

unfoldable pub load_whiteip_file : Option Bytes → Lists → ℕ → Run (Lists × ℕ)
load_whiteip_file file l next = do
  (s, next') ← load_ip_file file l.whitelacklist_ip next
  ok (record l { whitelacklist_ip = some s }, next')
