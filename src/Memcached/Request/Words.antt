-- ===== src/Memcached/Request/Words.antt =====
-- The tokens of a request line (Connect::processRequest, memcached/server/server.cc): words separated by
-- spaces come back as they are.
use cpp_swiss_army_knife.Common.{
  ℕ, zero, suc, ◌≤◌, ◌<◌, ◌≡◌, refl, ap, ◌∙◌, List, [], ◌∷◌, ◌++◌, true, false, arith, length, All,
  ◌==◌, replicate, length-append,
}
use cpp_swiss_army_knife.Memcached.Request.{
  skip_spaces, until_space, from_space, tokens_loop, tokens,
}

-- A word: not empty, and without a space.
abbrev pub NoSpace : List ℕ → Type 0
NoSpace w = All (λ (c : ℕ). (c == 32) ≡ false) w

abbrev pub IsWord : List ℕ → Type 0
IsWord w = (0 < length w) × NoSpace w

-- A line: each word after a number of spaces, of which there is one at least between two words, and
-- some spaces at the end.
abbrev pub after_word : List (ℕ × List ℕ) → ℕ → List ℕ
after_word [] last = replicate last 32
after_word ((n, w) ∷ ws) last = 32 ∷ (replicate n 32 ++ (w ++ after_word ws last))

abbrev pub line : List (ℕ × List ℕ) → ℕ → List ℕ
line [] last = replicate last 32
line ((n, w) ∷ ws) last = replicate n 32 ++ (w ++ after_word ws last)

abbrev pub words : List (ℕ × List ℕ) → List (List ℕ)
words [] = []
words ((n, w) ∷ ws) = w ∷ words ws

skip_replicate : (n : ℕ) (r : List ℕ) → skip_spaces (replicate n 32 ++ r) ≡ skip_spaces r
unfolding skip_spaces
skip_replicate zero r = refl
skip_replicate (suc n) r = skip_replicate n r

skip_word : (c : ℕ) (w r : List ℕ) → (c == 32) ≡ false → skip_spaces (c ∷ w ++ r) ≡ c ∷ w ++ r
unfolding skip_spaces
skip_word c w r h = rw (h) refl

-- What ends a word.
abbrev EndsWord : List ℕ → Type 0
EndsWord [] = Unit {0}
EndsWord (c ∷ r) = (c == 32) ≡ true

until_end : (r : List ℕ) → EndsWord r → until_space r ≡ []
unfolding until_space
until_end [] h = refl
until_end (c ∷ r) h = rw (h) refl

until_word : (w r : List ℕ) → NoSpace w → EndsWord r → until_space (w ++ r) ≡ w
unfolding until_space
until_word [] r h e = until_end r e
until_word (c ∷ w) r h e = rw (h.0) (ap (λ (t : List ℕ). c ∷ t) (until_word w r h.1 e))

from_end : (r : List ℕ) → EndsWord r → from_space r ≡ r
unfolding from_space
from_end [] h = refl
from_end (c ∷ r) h = rw (h) refl

from_word : (w r : List ℕ) → NoSpace w → EndsWord r → from_space (w ++ r) ≡ r
unfolding from_space
from_word [] r h e = from_end r e
from_word (c ∷ w) r h e = rw (h.0) (from_word w r h.1 e)

after_word-EndsWord : (ws : List (ℕ × List ℕ)) (last : ℕ) → EndsWord (after_word ws last)
after_word-EndsWord [] zero = tt
after_word-EndsWord [] (suc last) = refl
after_word-EndsWord ((n, w) ∷ ws) last = refl

skip_after_word :
    (ws : List (ℕ × List ℕ)) (last : ℕ)
    → skip_spaces (after_word ws last) ≡ skip_spaces (line ws last)
unfolding skip_spaces
skip_after_word [] last = refl
skip_after_word ((n, w) ∷ ws) last = refl

all_spaces : (n : ℕ) → skip_spaces (replicate n 32) ≡ []
unfolding skip_spaces
all_spaces zero = refl
all_spaces (suc n) = all_spaces n

tokens_loop-line :
    (fuel : ℕ) (ws : List (ℕ × List ℕ)) (last : ℕ) (next : List ℕ)
    → All (λ (p : ℕ × List ℕ). IsWord p.1) ws
    → skip_spaces next ≡ skip_spaces (line ws last)
    → length (words ws) ≤ fuel
    → tokens_loop fuel next ≡ words ws
unfolding tokens_loop
tokens_loop-line zero [] last next h e f = refl
tokens_loop-line (suc fuel) [] last next h e f = rw (e ∙ all_spaces last, tokens_loop) refl
tokens_loop-line zero (p ∷ ws) last next h e f = absurd (omega arith)
tokens_loop-line (suc fuel) ((n, []) ∷ ws) last next h e f =
    let p : 0 < 0 = h.0.0 in absurd (omega arith)
tokens_loop-line (suc fuel) ((n, c ∷ w) ∷ ws) last next h e f =
    let r = after_word ws last in
    let end = after_word-EndsWord ws last in
    let at : skip_spaces next ≡ c ∷ w ++ r =
      e ∙ skip_replicate n (c ∷ w ++ r) ∙ skip_word c w r h.0.1.0 in
    rw (at, tokens_loop)
      (rw (until_word (c ∷ w) r h.0.1 end) (
        ap (λ (t : List (List ℕ)). (c ∷ w) ∷ t)
          (tokens_loop-line fuel ws last (from_space (c ∷ w ++ r)) h.1
            (ap skip_spaces (from_word (c ∷ w) r h.0.1 end) ∙ skip_after_word ws last)
            (omega arith))))

fewer_words :
    (ws : List (ℕ × List ℕ)) (last : ℕ)
    → All (λ (p : ℕ × List ℕ). IsWord p.1) ws
    → length (words ws) ≤ length (after_word ws last)
fewer_words [] last h = omega arith
fewer_words ((n, w) ∷ ws) last h =
    let rest = fewer_words ws last h.1 in
    let a = length-append (replicate n 32) (w ++ after_word ws last) in
    omega (arith, length-append w (after_word ws last))

fewer_line :
    (ws : List (ℕ × List ℕ)) (last : ℕ)
    → All (λ (p : ℕ × List ℕ). IsWord p.1) ws
    → length (words ws) ≤ length (line ws last)
fewer_line [] last h = omega arith
fewer_line ((n, w) ∷ ws) last h =
    let rest = fewer_words ws last h.1 in
    let some_byte = h.0.0 in
    let a = length-append (replicate n 32) (w ++ after_word ws last) in
    omega (arith, length-append w (after_word ws last))

-- A line of words, not empty and without spaces, with any number of spaces before, between (at
-- least one) and after them, is split into exactly these words.
pub tokens-line :
    (ws : List (ℕ × List ℕ)) (last : ℕ)
    → All (λ (p : ℕ × List ℕ). IsWord p.1) ws
    → tokens (line ws last) ≡ words ws
unfolding tokens
tokens-line ws last h =
    tokens_loop-line (length (line ws last)) ws last (line ws last) h refl (fewer_line ws last h)
