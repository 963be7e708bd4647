-- ===== src/Options/Refusals.antt =====
-- The options on which main of main.c ends: an unknown one, and a file that cannot be opened.
use graftcp.Prelude.{
  ℕ, ◌≡◌, refl, ap, arith, Bytes, false, Option, none, some, List, [], ◌∷◌, if◌then◌else◌,
  Bool-cases, inl, inr,
}
use graftcp.StringSet.{exit}
use graftcp.Filter.{load_ip_file, load_blackip_file, load_whiteip_file}
use graftcp.Filter.Loading.{IsValidOption}
use graftcp.Options.{
  Host, Opt, opt_a, opt_p, opt_f, opt_b, opt_w, opt_n, opt_h, Settings, initial_settings,
  read_options, start,
}
use graftcp.Options.Reading.{reads, load_black, load_white}

module _ ⦃host : Host⦄ where
  -- The status with which the first bad option ends the program.
  unfoldable pub refusal : List Opt → Option ℕ
  refusal [] = none
  refusal (opt_a a ∷ opts) = refusal opts
  refusal (opt_p p ∷ opts) = refusal opts
  refusal (opt_f f ∷ opts) = refusal opts
  refusal (opt_b b ∷ opts) = let rest = refusal opts in if reads (host.file b) then rest else some 1
  refusal (opt_w w ∷ opts) = let rest = refusal opts in if reads (host.file w) then rest else some 1
  refusal (opt_n ∷ opts) = refusal opts
  refusal (opt_h ∷ opts) = some 0

  black_exit :
      (f : Option Bytes) (s : Settings)
      → reads f ≡ false
      → load_blackip_file f s.lists s.next ≡ exit 1
  unfolding load_blackip_file load_ip_file
  black_exit none s h = refl
  black_exit (some f) s h = cc

  white_exit :
      (f : Option Bytes) (s : Settings)
      → reads f ≡ false
      → load_whiteip_file f s.lists s.next ≡ exit 1
  unfolding load_whiteip_file load_ip_file
  white_exit none s h = refl
  white_exit (some f) s h = cc

  read_options-refusal :
      (opts : List Opt) (s : Settings) (n : ℕ)
      → IsValidOption s.lists.blacklist_ip
      → IsValidOption s.lists.whitelacklist_ip
      → refusal opts ≡ some n
      → read_options opts s ≡ exit n
  unfolding read_options refusal
  read_options-refusal [] s n v w h = cc
  read_options-refusal (opt_a a ∷ opts) s n v w h = read_options-refusal opts _ n v w h
  read_options-refusal (opt_p p ∷ opts) s n v w h = read_options-refusal opts _ n v w h
  read_options-refusal (opt_f f ∷ opts) s n v w h = read_options-refusal opts _ n v w h
  read_options-refusal (opt_n ∷ opts) s n v w h = read_options-refusal opts _ n v w h
  read_options-refusal (opt_h ∷ opts) s n v w h =
      let same : 0 ≡ n = ground (arith, h) in ap exit same
  read_options-refusal (opt_b b ∷ opts) s n v w h = elim (Bool-cases (reads (host.file b))) [
    | inl open_ ↦
        let (set, m, put, l) = load_black (host.file b) s open_ v in
        rw put (read_options-refusal opts _ n l.valid w (rw open_ at h))
    | inr shut ↦
        let same : 1 ≡ n = ground (arith, shut, h) in
        rw (black_exit (host.file b) s shut) (ap exit same)
  ]
  read_options-refusal (opt_w f ∷ opts) s n v w h = elim (Bool-cases (reads (host.file f))) [
    | inl open_ ↦
        let (set, m, put, l) = load_white (host.file f) s open_ w in
        rw put (read_options-refusal opts _ n v l.valid (rw open_ at h))
    | inr shut ↦
        let same : 1 ≡ n = ground (arith, shut, h) in
        rw (white_exit (host.file f) s shut) (ap exit same)
  ]

  -- The first option that is unknown ends main with status 0, and the first one whose file cannot
  -- be opened with status 1, whichever comes first, and whatever the options behind it.
  pub start-refusal : (opts : List Opt) (n : ℕ) → refusal opts ≡ some n → start opts ≡ exit n
  unfolding start
  start-refusal opts n h = rw (read_options-refusal opts initial_settings n tt tt h)
