-- ===== src/Proxy/Lru/Search.antt =====
-- The search of proxy/lab/lru.c: `lru_find` over the list of nodes.
use csapp_labs.Base.{
  ℕ, zero, suc, ◌<◌, ◌≡◌, refl, Bool, true, false, ◌||◌, some, List, [], ◌∷◌, ◌++◌, if◌then◌else◌,
  arith, length, ==-self, ap, ◌∙◌, ==-ne, Bool-cases, inl, inr, ◌≢◌,
}
use csapp_labs.Base.Member.{has, distinct, has-append}
use csapp_labs.Base.Text.{Text, text_eq}
use csapp_labs.Proxy.Lru.{Lru, find_from, lru_find}
use csapp_labs.Proxy.Lru.Links.{Linked}

-- The cache holds the nodes `xs`, the least recently used one first.
pub record IsCache (s : Lru) (xs : List ℕ) : Type 0 where
  pub linked : Linked s s.head (xs ++ (s.tail ∷ []))
  pub apart : distinct (s.head ∷ (xs ++ (s.tail ∷ []))) ≡ true
  pub non_null : has 0 (s.head ∷ xs) ≡ false

-- The first node with the key, 0 if there is none.
abbrev pub find_key : (ℕ → Text) → Text → List ℕ → ℕ
find_key keys key [] = 0
find_key keys key (x ∷ xs) = if text_eq (keys x) key then x else find_key keys key xs

abbrev pub has_key : (ℕ → Text) → Text → List ℕ → Bool
has_key keys key [] = false
has_key keys key (x ∷ xs) = text_eq (keys x) key || has_key keys key xs

-- One round of the loop.
find_from-tail : (s : Lru) (key : Text) (k : ℕ) → find_from (suc k) key s.tail s ≡ some (0, s)
unfolding find_from
find_from-tail s key k = rw (find_from, ==-self s.tail) refl

find_from-suc :
    (s : Lru) (key : Text) (k x : ℕ)
    → x ≢ s.tail
    → find_from (suc k) key x s
      ≡ (elim (text_eq (s.key x) key) [ true ↦ some (x, s) | false ↦ find_from k key (s.next x) s ])
unfolding find_from
find_from-suc s key k x e = rw (find_from, ==-ne x s.tail e) refl

find_from-find_key :
    (s : Lru) (key : Text) (k p : ℕ) (xs : List ℕ)
    → length xs < k
    → has s.tail xs ≡ false
    → Linked s p (xs ++ (s.tail ∷ []))
    → find_from k key (s.next p) s ≡ some (find_key s.key key xs, s)
find_from-find_key s key zero p xs m n l = absurd (omega arith)
find_from-find_key s key (suc k) p [] m n l =
    ap (λ q. find_from (suc k) key q s) l.0 ∙ find_from-tail s key k
find_from-find_key s key (suc k) p (x ∷ xs) m n l =
    ap (λ q. find_from (suc k) key q s) l.0
    ∙ find_from-suc s key k x (ground arith)
    ∙ elim (Bool-cases (text_eq (s.key x) key)) [
      | inl e ↦ rw e refl
      | inr e ↦ rw e (find_from-find_key s key k x xs (omega arith) (ground arith) l.3)
    ]

tail_apart : (q t : ℕ) (xs : List ℕ) → distinct (q ∷ (xs ++ (t ∷ []))) ≡ true → has t xs ≡ false
tail_apart q t [] d = refl
tail_apart q t (x ∷ xs) d = ground (arith, tail_apart x t xs, has-append x xs (t ∷ []))

-- `lru_find` ends after as many rounds as the cache has nodes, and one more, and returns the first
-- node whose key is the given string, or NULL; it changes nothing.
pub lru_find-find_key :
    (s : Lru) (key : Text) (k : ℕ) (xs : List ℕ)
    → IsCache s xs
    → length xs < k
    → lru_find k key s ≡ some (find_key s.key key xs, s)
unfolding lru_find
lru_find-find_key s key k xs c m =
    find_from-find_key s key k s.head xs m (tail_apart s.head s.tail xs c.apart) c.linked
