-- ===== src/Tests/Sets.antt =====
-- The string set and the lists, on samples.
use graftcp.Prelude.{
  ℕ, ◌≡◌, refl, arith, Bytes, Bool, true, not, ◌&&◌, ◌==◌, some, none, [], ◌∷◌, ◌++◌, replicate,
}
use graftcp.StringSet.{CString, StrSet, ok, str_set_new, str_set_free}
use graftcp.StringSet.Lifecycle.{NewOutcome, str_set_new-outcome, members, str_set_free-members}
use graftcp.StringSet.Refinement.{
  put, remove, perform_all, contains, spec, Represents, perform_all-Represents,
}
use graftcp.Filter.{load_ip_file}
use graftcp.Filter.Lines.{IsPlain, file_of, long, cut_last}
use graftcp.Filter.Loading.{Loads, listed, load_ip_file-Loads}

-- "10.0.0.1", "127.0.0.1" and "::1"
abbrev ten : Bytes
ten = b'1' ∷ b'0' ∷ b'.' ∷ b'0' ∷ b'.' ∷ b'0' ∷ b'.' ∷ b'1' ∷ []

abbrev loopback : Bytes
loopback = b'1' ∷ b'2' ∷ b'7' ∷ b'.' ∷ b'0' ∷ b'.' ∷ b'0' ∷ b'.' ∷ b'1' ∷ []

abbrev loopback6 : Bytes
loopback6 = b':' ∷ b':' ∷ b'1' ∷ []

abbrev ten_string : CString
ten_string = record { address = 800; chars = ten }

-- The set that str_set_new makes at address 900.
abbrev new_set : StrSet
new_set = record { address = 900; length = 0; size = 509; buckets = replicate 509 [] }

new_set-IsNew : NewOutcome (some 900) (ok new_set)
unfolding str_set_new
new_set-IsNew = str_set_new-outcome (some 900)

new_set-Represents : Represents [] new_set
new_set-Represents = record {
  valid = new_set-IsNew.0.valid;
  member = λ q. unfold contains in new_set-IsNew.0.member q;
  counted = new_set-IsNew.0.empty;
  distinct = tt;
}

perform_all-Represents_example :
    (r : StrSet) × (perform_all new_set
        (put ten_string 901 ∷ put ten_string 902 ∷ remove loopback ∷ [])
      ≡ ok r)
    × Represents (spec [] (put ten_string 901 ∷ put ten_string 902 ∷ remove loopback ∷ [])) r
perform_all-Represents_example =
    perform_all-Represents new_set []
      (put ten_string 901 ∷ put ten_string 902 ∷ remove loopback ∷ []) new_set-Represents

str_set_free-members_example : str_set_free new_set ≡ members new_set.buckets ++ 900 ∷ []
str_set_free-members_example = str_set_free-members new_set new_set-IsNew.0.valid

is_plain : Bytes → Bool
is_plain [] = true
is_plain (c ∷ s) = not (c == b'\n') && not (c == 0) && is_plain s

is_plain-IsPlain : (s : Bytes) → is_plain s ≡ true → IsPlain s
unfolding is_plain
is_plain-IsPlain [] h = tt
is_plain-IsPlain (c ∷ s) h = (ground arith, ground arith, is_plain-IsPlain s (ground arith))

ten-IsPlain : IsPlain ten
unfolding is_plain
ten-IsPlain = is_plain-IsPlain ten refl

loopback-IsPlain : IsPlain loopback
unfolding is_plain
loopback-IsPlain = is_plain-IsPlain loopback refl

loopback6-IsPlain : IsPlain loopback6
unfolding is_plain
loopback6-IsPlain = is_plain-IsPlain loopback6 refl

-- A file of 10.0.0.1, ::1 and, with no newline, 127.0.0.1.
load_ip_file-Loads_example :
    (r : StrSet) × (n : ℕ) × (load_ip_file (some (file_of (ten ∷ loopback6 ∷ []) loopback)) none 900
      ≡ ok (r, n))
    × Loads (listed none) (long (ten ∷ loopback6 ∷ []) ++ cut_last loopback) r
load_ip_file-Loads_example =
    load_ip_file-Loads (ten ∷ loopback6 ∷ []) loopback none 900 tt
      (ten-IsPlain, (loopback6-IsPlain, tt)) loopback-IsPlain
