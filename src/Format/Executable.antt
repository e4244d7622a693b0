-- ===== src/Format/Executable.antt =====
-- `shortExe` against the components of a path.
use text.Mathlib.TextLemmas
use text.Mathlib.TextEquality.{Char-path}
use guardian_os_ai.Base.{
  String, Char, code, ◌≡◌, refl, ap, ◌∙◌, ◌≢◌, ◌⊎◌, inl, inr, List, [], ◌∷◌, ◌^^◌, ◌==◌, All, arith,
  Bool-cases, ==_iff, true,
}
use guardian_os_ai.Format.{split_slash, last_part, short_exe}

-- No character of the text is a slash.
abbrev pub HasNoSlash : String → Type 0
HasNoSlash String.[] = Unit
HasNoSlash (String.◌∷◌ c s) = (code c ≢ b'/') × HasNoSlash s

abbrev join : String → List String → String
join first [] = first
join first (second ∷ rest) = first ^^ ("/" ^^ join second rest)

-- What a split into parts is: slash-free parts that give the text when joined.
abbrev Splits : String → String × List String → Type 0
Splits s parts = HasNoSlash parts.0 × All HasNoSlash parts.1 × (join parts.0 parts.1 ≡ s)

join-cons :
    (c : Char) (first : String) (rest : List String)
    → join (String.◌∷◌ c first) rest ≡ String.◌∷◌ c (join first rest)
join-cons c first [] = refl
join-cons c first (second ∷ rest) = TextLemmas.cons-append c first _

slash_path : (c : Char) → (code c == b'/') ≡ true → c ≡ "/"
slash_path c h = Char-path c "/" ((==_iff (code c) 47).0 h)

slash_joined : (c : Char) (t s : String) → c ≡ "/" → t ≡ s → ("" ^^ ("/" ^^ t)) ≡ String.◌∷◌ c s
slash_joined c t s e j =
    TextLemmas.nil-append _
    ∙ TextLemmas.cons-append "/" "" t
    ∙ rw (e, j) (ap (String.◌∷◌ "/") (TextLemmas.nil-append s))

split_slash-Splits : (s : String) → Splits s (split_slash s)
unfolding split_slash
split_slash-Splits String.[] = (tt, tt, refl)
split_slash-Splits (String.◌∷◌ c s) =
    let (free, frees, joined) = split_slash-Splits s in
    elim (Bool-cases (code c == b'/')) [
      | inl e ↦ rw e (tt, (free, frees), slash_joined c _ s (slash_path c e) joined)
      | inr e ↦ rw e ((ground arith, free), frees, join-cons c _ _ ∙ ap (String.◌∷◌ c) joined)
    ]

last_part-HasNoSlash :
    (first : String) (rest : List String)
    → HasNoSlash first
    → All HasNoSlash rest
    → HasNoSlash (last_part first rest)
unfolding last_part
last_part-HasNoSlash first [] h k = h
last_part-HasNoSlash first (second ∷ rest) h (p, k) = last_part-HasNoSlash second rest p k

-- The text is the name alone, or a directory, a slash and the name.
abbrev pub EndsIn : String → String → Type 0
EndsIn name path = (name ≡ path) ⊎ ((dir : String) × (dir ^^ ("/" ^^ name) ≡ path))

EndsIn-deeper : (dir name path : String) → EndsIn name path → EndsIn name (dir ^^ ("/" ^^ path))
EndsIn-deeper dir name path (inl e) = inr (dir, ap (λ p. dir ^^ ("/" ^^ p)) e)
EndsIn-deeper dir name path (inr (deep, e)) = inr (
  dir ^^ ("/" ^^ deep),
  TextLemmas.append_assoc dir ("/" ^^ deep) ("/" ^^ name)
      ∙ ap (λ t. dir ^^ t) (TextLemmas.append_assoc "/" deep ("/" ^^ name) ∙ ap (λ t. "/" ^^ t) e),
)

last_part-EndsIn :
    (first : String) (rest : List String) → EndsIn (last_part first rest) (join first rest)
unfolding last_part
last_part-EndsIn first [] = inl refl
last_part-EndsIn first (second ∷ rest) = EndsIn-deeper first _ _ (last_part-EndsIn second rest)

-- The short name of an executable holds no slash, and its path is that name, or ends in a slash and
-- that name: the short name is the whole last component.
pub short_exe-EndsIn : (exe : String) → HasNoSlash (short_exe exe) × EndsIn (short_exe exe) exe
unfolding short_exe
short_exe-EndsIn exe =
    let (first, rest) = split_slash exe in
    let (free, frees, joined) = split_slash-Splits exe in
    (last_part-HasNoSlash first rest free frees, rw joined at (last_part-EndsIn first rest))
