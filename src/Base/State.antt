-- ===== src/Base/State.antt =====
-- Commands on a state, which return a value and a new state or stop: the monad in which code that
-- changes shared memory is written.
use mathlib.Core.Path.{◌≡◌}
use mathlib.Core.Option.{Option, none, some}

-- `none`: the command has failed, or does not end.
abbrev pub Cmd : Type 0 → Type 0 → Type 0
Cmd S A = S → Option (A × S)

abbrev pub pure : {S A : Type 0} → A → Cmd S A
pure a s = some (a, s)

abbrev pub fault : {S A : Type 0} → Cmd S A
fault s = none

infixl 5 ◌>>=◌ ◌>>◌
abbrev pub ◌>>=◌ : {S A B : Type 0} → Cmd S A → (A → Cmd S B) → Cmd S B
◌>>=◌ m f s = elim (m s) [ none ↦ none | some (a, s') ↦ f a s' ]

abbrev pub ◌>>◌ : {S A B : Type 0} → Cmd S A → Cmd S B → Cmd S B
m >> n = m >>= λ _. n

-- A command that begins with one whose result is known.
pub bind-some :
    {S A B : Type 0} (m : Cmd S A) (f : A → Cmd S B) (s s' : S) (a : A) {r : Option (B × S)}
    → m s ≡ some (a, s')
    → f a s' ≡ r
    → (m >>= f) s ≡ r
bind-some m f s s' a e k = rw (e, ◌>>=◌) k

-- And one that begins with a command that fails.
pub bind-none :
    {S A B : Type 0} (m : Cmd S A) (f : A → Cmd S B) (s : S) → m s ≡ none → (m >>= f) s ≡ none
bind-none m f s e = rw (e, ◌>>=◌)
