-- ===== src/Proxy/Lru/Links.antt =====
-- The doubly linked list of proxy/lab/lru.c under removal and insertion.
use csapp_labs.Base.{
  ℕ, ◌≡◌, refl, ◌≢◌, true, false, some, List, [], ◌∷◌, ◌++◌, arith, sym, ◌∙◌, ==-ne,
}
use csapp_labs.Base.Member.{has, distinct, has-append, ne_of_has}
use csapp_labs.Proxy.Lru.{Lru, put, lru_remove, push_back}

-- From `p` the nodes `xs` are linked, to and fro.
abbrev pub Linked : Lru → ℕ → List ℕ → Type 0
Linked s p [] = Unit
Linked s p (x ∷ xs) = (s.next p ≡ x) × (s.pre x ≡ p) × (x ≢ 0) × Linked s x xs

pub put_other {ℓ} : {A : Type ℓ} (f : ℕ → A) (n : ℕ) (a : A) (m : ℕ) → m ≢ n → put f n a m ≡ f m
put_other f n a m e = rw (==-ne m n e) refl

-- Links are kept by any change that spares them.
pub frame :
    (s t : Lru) (p : ℕ) (xs : List ℕ)
    → ((q : ℕ) → has q (p ∷ xs) ≡ true → t.next q ≡ s.next q)
    → ((q : ℕ) → has q xs ≡ true → t.pre q ≡ s.pre q)
    → Linked s p xs
    → Linked t p xs
frame s t p [] n m l = tt
frame s t p (x ∷ xs) n m l = (
  n p (ground arith) ∙ l.0,
  m x (ground arith) ∙ l.1,
  l.2,
  frame s t x xs (λ q k. n q (ground arith)) (λ q k. m q (ground arith)) l.3,
)

-- The node before the last one of two.
before :
    (s : Lru) (p x : ℕ) (ys zs : List ℕ)
    → Linked s p (ys ++ (x ∷ zs))
    → (has (s.pre x) (p ∷ ys) ≡ true) × Linked s x zs × (x ≢ 0)
before s p x [] zs l = (ground arith, l.3, l.2)
before s p x (y ∷ ys) zs l = let rest = before s y x ys zs l.3 in (ground arith, rest.1, rest.2)

abbrev pub removed : Lru → ℕ → Lru
removed s x = record s {
  pre = put s.pre (s.next x) (s.pre x);
  next = put s.next (s.pre x) (s.next x);
}

distinct_ne :
    (p : ℕ) (ys : List ℕ) (x z : ℕ) (zs : List ℕ)
    → distinct (p ∷ (ys ++ (x ∷ z ∷ zs))) ≡ true
    → z ≢ x
distinct_ne p [] x z zs d = ground arith
distinct_ne p (y ∷ ys) x z zs d = distinct_ne y ys x z zs (ground arith)

module _ (s : Lru) (x : ℕ) (behind : s.next x ≢ 0) (front : s.pre x ≢ 0)
    (other : s.next x ≢ x) where
  lru_remove-removed : lru_remove x s ≡ some (tt, removed s x)
  unfolding lru_remove
  lru_remove-removed =
      rw
        (
          ==-ne (s.next x) 0 behind,
          ==-ne x (s.next x) (λ e. other (sym e)),
          ==-ne (s.pre x) 0 front,
        )
        refl

Linked-removed :
    (s : Lru) (p x z : ℕ) (ys zs : List ℕ)
    → distinct (p ∷ (ys ++ (x ∷ z ∷ zs))) ≡ true
    → Linked s p (ys ++ (x ∷ z ∷ zs))
    → Linked (removed s x) p (ys ++ (z ∷ zs))
Linked-removed s p x z [] zs d l = (
  ground arith,
  ground arith,
  l.3.2,
  frame s (removed s x) z zs
      (λ q k.
        put_other s.next (s.pre x) (s.next x) q
          (λ e. ne_of_has p q (z ∷ zs) (ground arith) k (sym (e ∙ l.1))))
      (λ q k.
        put_other s.pre (s.next x) (s.pre x) q
          (λ e. ne_of_has z q zs (ground arith) k (sym (e ∙ l.3.0))))
      l.3.3,
)
Linked-removed s p x z (y ∷ ys) zs d l =
    let nb = before s y x ys (z ∷ zs) l.3 in
    (
      put_other s.next (s.pre x) (s.next x) p
            (ne_of_has p (s.pre x) (y ∷ ys) (ground (arith, has-append p ys (x ∷ z ∷ zs))) nb.0)
          ∙ l.0,
      put_other s.pre (s.next x) (s.pre x) y (λ e.
            ne_of_has y z (ys ++ (x ∷ z ∷ zs)) (ground arith)
              (ground (arith, has-append z ys (x ∷ z ∷ zs))) (e ∙ nb.1.0))
          ∙ l.1,
      l.2,
      Linked-removed s y x z ys zs (ground arith) l.3,
    )

-- `lru_remove` takes the node `x` out of the list, and changes nothing but its neighbours' links.
pub lru_remove-Linked :
    (s : Lru) (p x z : ℕ) (ys zs : List ℕ)
    → p ≢ 0
    → has 0 (p ∷ ys) ≡ false
    → distinct (p ∷ (ys ++ (x ∷ z ∷ zs))) ≡ true
    → Linked s p (ys ++ (x ∷ z ∷ zs))
    → (lru_remove x s ≡ some (tt, removed s x)) × Linked (removed s x) p (ys ++ (z ∷ zs))
lru_remove-Linked s p x z ys zs pos nz d l =
    let nb = before s p x ys (z ∷ zs) l in
    (
      lru_remove-removed s x (λ e. nb.1.2 (sym nb.1.0 ∙ e))
          (λ e. ne_of_has 0 (s.pre x) (p ∷ ys) nz nb.0 (sym e))
          (λ e. distinct_ne p ys x z zs d (sym nb.1.0 ∙ e)),
      Linked-removed s p x z ys zs d l,
    )

-- The state after `push_back(x)`, `l` being the last node.
abbrev pub pushed : Lru → ℕ → Lru
pushed s x = record s {
  pre = put (put s.pre x (s.pre s.tail)) s.tail x;
  next = put (put s.next (s.pre s.tail) x) x s.tail;
}

push_back-pushed : (s : Lru) (x : ℕ) → s.pre s.tail ≢ 0 → push_back x s ≡ some (tt, pushed s x)
unfolding push_back
push_back-pushed s x e = rw (==-ne (s.pre s.tail) 0 e) refl

Linked-pushed :
    (s : Lru) (p x : ℕ) (ys : List ℕ)
    → x ≢ 0
    → has x (p ∷ (ys ++ (s.tail ∷ []))) ≡ false
    → distinct (p ∷ (ys ++ (s.tail ∷ []))) ≡ true
    → Linked s p (ys ++ (s.tail ∷ []))
    → Linked (pushed s x) p (ys ++ (x ∷ s.tail ∷ []))
Linked-pushed s p x [] nz f d l = ground arith
Linked-pushed s p x (y ∷ ys) nz f d l =
    let nb = before s y s.tail ys [] l.3 in
    (
      put_other (put s.next (s.pre s.tail) x) x s.tail p (ground arith)
          ∙ put_other s.next (s.pre s.tail) x p (
              ne_of_has p (s.pre s.tail) (y ∷ ys) (ground (arith, has-append p ys (s.tail ∷ [])))
                nb.0)
          ∙ l.0,
      put_other (put s.pre x (s.pre s.tail)) s.tail x y (
            ne_of_has y s.tail (ys ++ (s.tail ∷ [])) (ground arith)
              (ground (arith, has-append s.tail ys (s.tail ∷ []))))
          ∙ put_other s.pre x (s.pre s.tail) y (ground arith)
          ∙ l.1,
      l.2,
      Linked-pushed s y x ys nz (ground arith) (ground arith) l.3,
    )

-- `push_back` puts the node `x` behind all others of the list.
pub push_back-Linked :
    (s : Lru) (p x : ℕ) (ys : List ℕ)
    → x ≢ 0
    → has 0 (p ∷ ys) ≡ false
    → has x (p ∷ (ys ++ (s.tail ∷ []))) ≡ false
    → distinct (p ∷ (ys ++ (s.tail ∷ []))) ≡ true
    → Linked s p (ys ++ (s.tail ∷ []))
    → (push_back x s ≡ some (tt, pushed s x)) × Linked (pushed s x) p (ys ++ (x ∷ s.tail ∷ []))
push_back-Linked s p x ys nz pos f d l = (
  push_back-pushed s x
      (λ e. ne_of_has 0 (s.pre s.tail) (p ∷ ys) pos (before s p s.tail ys [] l).0 (sym e)),
  Linked-pushed s p x ys nz f d l,
)
