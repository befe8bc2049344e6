-- ===== src/Syntax/Blank.antt =====
-- core/lexer.cpp: the blanks before a token, and `NextToken` as a whole.
use mathlib.Core.Path.{subst}
use llir_opt.Prelude.{
  ℕ, zero, suc, ◌<◌, ◌≤◌, ◌≡◌, refl, ◌∙◌, ◌⊎◌, inl, inr, Bool, true, false, ◌||◌, List, [], ◌∷◌,
  Option, none, some, length, arith, ◌==◌, Bool-cases, Option-cases,
}
use llir_opt.Syntax.Chars.{is_space, is_digit}
use llir_opt.Syntax.Lexer.{
  Lexer, Outcome, lexed, error, undefined, no_fuel, char, next_char, drop_while, skip_comment,
  skip_blank, lex_token, next_token,
}
use llir_opt.Syntax.Left.{drop_while-le, next_char-le, next_char-lt, has, is_open, Risks, risks_of}
use llir_opt.Syntax.Progress.{has-char, Within, Takes, lex_token-Takes}

has-next_char : (q : ℕ → Bool) (cs : List ℕ) → has q (next_char cs) ≡ true → has q cs ≡ true
unfolding has next_char
has-next_char q [] h = h
has-next_char q (c ∷ cs) h = ground (arith, h)

has-drop_while : (q p : ℕ → Bool) (cs : List ℕ) → has q (drop_while p cs) ≡ true → has q cs ≡ true
unfolding has drop_while
has-drop_while q p [] h = h
has-drop_while q p (c ∷ cs) h = elim (Bool-cases (p c)) [
  | inl e ↦
      let inner : has q (drop_while p cs) ≡ true = rw e refl ∙ h in
      let rest = has-drop_while q p cs inner in ground (arith, rest)
  | inr e ↦ rw e refl ∙ h
]

-- Where there is a blank, something is dropped, unless a newline or a comment comes first.
drop_space-lt :
    (cs : List ℕ)
    → (is_space (char cs) || char cs == 10 || char cs == b'#') ≡ true
    → (char (drop_while is_space cs) == b'#') ≡ false
    → (char (drop_while is_space cs) == 10) ≡ false
    → length (drop_while is_space cs) < length cs
unfolding drop_while char is_space
drop_space-lt [] h e f = absurd (ground (arith, h, e, f))
drop_space-lt (c ∷ cs) h e f = elim (Bool-cases (is_space c)) [
  | inl k ↦ rw k (omega (arith, drop_while-le is_space cs))
  | inr k ↦ absurd (ground (arith, h, e, f, k))
]

Within-next_char : (cs : List ℕ) (risks : Risks) → Within cs risks → Within (next_char cs) risks
Within-next_char cs risks h =
    (λ k. h.0 (has-next_char is_open cs k), λ k. h.1 (has-next_char is_digit cs k))

Within-drop_while :
    (p : ℕ → Bool) (cs : List ℕ) (risks : Risks) → Within cs risks → Within (drop_while p cs) risks
Within-drop_while p cs risks h =
    (λ k. h.0 (has-drop_while is_open p cs k), λ k. h.1 (has-drop_while is_digit p cs k))

-- What a comment leaves of a text.
abbrev Rest : List ℕ → Option (List ℕ) → Type 0
Rest cs none = Unit
Rest cs (some rest) =
    (length rest ≤ length cs) × (has is_digit rest ≡ true → has is_digit cs ≡ true)

Rest-next_char : (cs : List ℕ) (o : Option (List ℕ)) → Rest (next_char cs) o → Rest cs o
Rest-next_char cs none h = tt
Rest-next_char cs (some rest) h =
    (omega (arith, h.0, next_char-le cs), λ k. has-next_char is_digit cs (h.1 k))

skip_comment-Rest : (fuel : ℕ) (input : List ℕ) → Rest (next_char input) (skip_comment fuel input)
unfolding skip_comment
skip_comment-Rest zero input = tt
skip_comment-Rest (suc fuel) input = elim (Bool-cases (char (next_char input) == 10)) [
  | inl e ↦ rw (skip_comment, e) (omega arith, λ k. k)
  | inr e ↦
      rw (skip_comment, e)
        (Rest-next_char (next_char input) (skip_comment fuel (next_char input))
          (skip_comment-Rest fuel (next_char input)))
]

-- What the blanks leave: a newline among them is a character.
abbrev Blanks : ℕ → Bool → Risks → Option (List ℕ × Bool) → Type 0
Blanks n broken risks none = risks.endless ≡ true
Blanks n broken risks (some (rest, broken')) =
    (length rest ≤ n) × ((broken' ≡ broken) ⊎ (length rest < n)) × Within rest risks

Blanks-mono :
    (m n : ℕ) (b : Bool) (risks : Risks) (o : Option (List ℕ × Bool))
    → m ≤ n
    → Blanks m b risks o
    → Blanks n b risks o
Blanks-mono m n b risks none h k = k
Blanks-mono m n b risks (some (rest, b')) h (k, c, p) =
    (omega (arith, h, k), elim c [ inl e ↦ inl e | inr l ↦ inr (omega (arith, l, h)) ], p)

Blanks-newline :
    (m n : ℕ) (b b' : Bool) (risks : Risks) (o : Option (List ℕ × Bool))
    → m < n
    → Blanks m b risks o
    → Blanks n b' risks o
Blanks-newline m n b b' risks none h k = k
Blanks-newline m n b b' risks (some (rest, c)) h (k, _, p) =
    (omega (arith, h, k), inr (omega (arith, h, k)), p)

-- After the spaces and the comment of a round.
round-Blanks :
    (fuel n : ℕ) (rest : List ℕ) (broken : Bool) (risks : Risks)
    → ((input : List ℕ) (b : Bool)
        → length input < fuel
        → Within input risks
        → Blanks (length input) b risks (skip_blank fuel input b))
    → n ≤ fuel
    → length rest ≤ n
    → ((char rest == 10) ≡ false → length rest < n)
    → Within rest risks
    → Blanks n broken risks (elim (char rest == 10) [
      | true ↦ skip_blank fuel (next_char rest) true
      | false ↦ skip_blank fuel rest broken
    ])
round-Blanks fuel n rest broken risks again f l s p = elim (Bool-cases (char rest == 10)) [
  | inl e ↦
      let filled : (char rest == 0) ≡ false = ground (arith, e) in
      let less = next_char-lt rest filled in
      rw e (
        Blanks-newline (length (next_char rest)) n true broken risks
          (skip_blank fuel (next_char rest) true) (omega (arith, less, l))
          (again (next_char rest) true (omega (arith, less, l, f)) (Within-next_char rest risks p)))
  | inr e ↦ rw e (
      Blanks-mono (length rest) n broken risks (skip_blank fuel rest broken) l
        (again rest broken (omega (arith, s e, f)) p))
]

skip_blank-Blanks :
    (fuel : ℕ) (input : List ℕ) (broken : Bool) (risks : Risks)
    → length input < fuel
    → Within input risks
    → Blanks (length input) broken risks (skip_blank fuel input broken)
unfolding skip_blank
skip_blank-Blanks zero input broken risks l p = absurd (omega arith)
skip_blank-Blanks (suc fuel) input broken risks l p =
    elim (Bool-cases (is_space (char input) || char input == 10 || char input == b'#')) [
      | inr e ↦ rw (skip_blank, e) (omega arith, inl refl, p)
      | inl e ↦
          let tail = drop_while is_space input in
          let shorter = drop_while-le is_space input in
          let again = λ (i : List ℕ) (b : Bool) (k : length i < fuel) (q : Within i risks).
            skip_blank-Blanks fuel i b risks k q in
          elim (Bool-cases (char tail == b'#')) [
            | inr f ↦
                rw (skip_blank, e, f)
                  (round-Blanks fuel (length input) tail broken risks again (omega arith) shorter
                    (λ g. drop_space-lt input e f g) (Within-drop_while is_space input risks p))
            | inl f ↦
                let here : Within tail risks = Within-drop_while is_space input risks p in
                let may : risks.endless ≡ true =
                  here.0 (has-char is_open tail refl (ground (arith, f))) in
                let filled : (char tail == 0) ≡ false = ground (arith, f) in
                elim (Option-cases (skip_comment (suc (length input)) tail)) [
                  | inl g ↦ rw (skip_blank, e, f, g) may
                  | inr (rest, g) ↦
                      let (less, digits) =
                        subst (Rest (next_char tail)) g
                          (skip_comment-Rest (suc (length input)) tail) in
                      let taken = next_char-lt tail filled in
                      rw (skip_blank, e, f, g)
                        (round-Blanks fuel (length input) rest broken risks again (omega arith)
                          (omega (arith, less, taken, shorter))
                          (λ _. omega (arith, less, taken, shorter))
                          (λ _. may, λ k. here.1 (has-next_char is_digit tail (digits k))))
                ]
          ]
    ]

Takes-mono : (m n : ℕ) (risks : Risks) (o : Outcome) → m ≤ n → Takes m risks o → Takes n risks o
unfolding Takes
Takes-mono m n risks (lexed l) h k = elim k [ inl e ↦ inl e | inr e ↦ inr (omega (arith, e, h)) ]
Takes-mono m n risks error h k = tt
Takes-mono m n risks undefined h k = k
Takes-mono m n risks no_fuel h k = k

-- The loops of `NextToken` end on every text without `#` and without a quote, what it does is defined on every
-- text without a digit, and on every text a token other than the end leaves fewer characters than there were.
pub next_token-Takes : (l : Lexer) → Takes (length l.input) (risks_of l.input) (next_token l)
unfolding next_token Takes
next_token-Takes l =
    go (skip_blank (suc (length l.input)) l.input false)
      (skip_blank-Blanks (suc (length l.input)) l.input false (risks_of l.input) (omega arith)
        (λ h. h, λ h. h))
      refl
  where
    go :
        (o : Option (List ℕ × Bool))
        → Blanks (length l.input) false (risks_of l.input) o
        → skip_blank (suc (length l.input)) l.input false ≡ o
        → Takes (length l.input) (risks_of l.input) (next_token l)
    go none b e = rw (next_token, e) b
    go (some (rest, true)) (k, c, p) e =
        rw (next_token, e) (inr (elim c [ inl d ↦ absurd (cc d) | inr less ↦ less ]))
    go (some (rest, false)) (k, c, p) e =
        rw (next_token, e)
          (Takes-mono (length rest) (length l.input) (risks_of l.input)
            (lex_token rest (record l { str = []; int = 0 })) k
            (lex_token-Takes rest (risks_of l.input) (record l { str = []; int = 0 }) p))
