-- ===== src/Protocol/Words.antt =====
-- `htonl` and `ntohl`, as the four bytes of a `uint32_t` in memory.
use pm_lab_tools.Prelude.{
  ℕ, ◌+◌, ◌*◌, ◌/◌, ◌%◌, ◌^◌, ◌<◌, ◌≡◌, refl, List, [], ◌∷◌, arith, length, ap, ◌++◌,
}

-- The bytes of `htonl(n)`.
unfoldable pub htonl : ℕ → List ℕ
htonl n = (n / 2 ^ 24 % 256) ∷ (n / 2 ^ 16 % 256) ∷ (n / 2 ^ 8 % 256) ∷ (n % 256) ∷ []

-- `ntohl` of four bytes in memory.
unfoldable pub ntohl : List ℕ → ℕ
ntohl (a ∷ b ∷ c ∷ d ∷ []) = a * 2 ^ 24 + b * 2 ^ 16 + c * 2 ^ 8 + d
ntohl _ = 0

pub length-htonl : (n : ℕ) → length (htonl n) ≡ 4
unfolding htonl
length-htonl n = refl

-- A 32 bit word in network order reads back as itself.
pub ntohl-htonl : (n : ℕ) → n < 2 ^ 32 → ntohl (htonl n) ≡ n
unfolding ntohl htonl
ntohl-htonl n h = omega arith

-- An array of words, each in network order.
unfoldable pub words : List ℕ → List ℕ
words [] = []
words (n ∷ rest) = htonl n ++ words rest

-- Each word of an array read back.
unfoldable pub from_words : List ℕ → List ℕ
from_words (a ∷ b ∷ c ∷ d ∷ rest) = ntohl (a ∷ b ∷ c ∷ d ∷ []) ∷ from_words rest
from_words _ = []

-- All are 32 bit words.
abbrev pub AreWords : List ℕ → Type 0
AreWords [] = Unit
AreWords (n ∷ rest) = (n < 2 ^ 32) × AreWords rest

pub length-words : (ns : List ℕ) → length (words ns) ≡ 4 * length ns
unfolding words htonl
length-words [] = refl
length-words (n ∷ rest) = omega (arith, length-words rest)

pub from_words-words : (ns : List ℕ) → AreWords ns → from_words (words ns) ≡ ns
unfolding words from_words htonl
from_words-words [] h = refl
from_words-words (n ∷ rest) h =
    rw (from_words-words rest h.1) (ap (λ k. k ∷ rest) (ntohl-htonl n h.0))
