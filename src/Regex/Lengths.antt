-- ===== src/Regex/Lengths.antt =====
-- How many units an expression reads at least, which groups it sets, and quantifiers with these bounds.
use analisis_de_protocolo_de.Prelude.{
  ℕ, zero, suc, ◌+◌, ◌≤◌, ◌≡◌, refl, ap, ◌∙◌, sym, Bool, true, false, ◌||◌, Option, none, some, [],
  ◌++◌, append_assoc, ◌⊎◌, ◌==◌, length, length-append, arith, ltb, inl, inr,
}
use analisis_de_protocolo_de.Prelude.Text.{Text}
use analisis_de_protocolo_de.Regex.{
  Re, Cursor, Groups, Found, Matcher, or_else, prefer, only_if, star_loop, eps, one, seq, or, group,
  back, star, start, line_start, end, not_ahead,
}
use Prim.Native.Nat.{min}

-- A lower bound on the length of a match.
unfoldable pub min_len : Re → ℕ
min_len eps = 0
min_len (one p) = 1
min_len (seq a b) = min_len a + min_len b
min_len (or a b) = min (min_len a) (min_len b)
min_len (group n a) = min_len a
min_len (back n) = 0
min_len (star greedy a) = 0
min_len start = 0
min_len line_start = 0
min_len end = 0
min_len (not_ahead p) = 0

-- Whether the expression has the group `n`.
unfoldable pub has_group : ℕ → Re → Bool
has_group n eps = false
has_group n (one p) = false
has_group n (seq a b) = has_group n a || has_group n b
has_group n (or a b) = has_group n a || has_group n b
has_group n (group k a) = n == k || has_group n a
has_group n (back k) = false
has_group n (star greedy a) = has_group n a
has_group n start = false
has_group n line_start = false
has_group n end = false
has_group n (not_ahead p) = false

pub record Reads (lo : ℕ) (sets : ℕ → Bool) (s : Cursor) (g : Groups)
    (k : Cursor → Groups → Option Found) (x : Found) : Type 0 where
  pub word : Text
  pub to : Cursor
  pub groups : Groups
  pub reads : s.rest ≡ word ++ to.rest
  pub long : lo ≤ length word
  pub kept : (n : ℕ) → sets n ≡ false → groups n ≡ g n
  pub goes_on : k to groups ≡ some x

abbrev pub Inverts : ℕ → (ℕ → Bool) → Matcher → Type 0
Inverts lo sets m =
    (s : Cursor) (g : Groups) (k : Cursor → Groups → Option Found) (x : Found)
    → m s g k ≡ some x
    → Reads lo sets s g k x

pub eps-Reads :
    (sets : ℕ → Bool) (s : Cursor) (g : Groups) (k : Cursor → Groups → Option Found) (x : Found)
    → k s g ≡ some x
    → Reads 0 sets s g k x
eps-Reads sets s g k x h = record {
  word = [];
  to = s;
  groups = g;
  reads = refl;
  long = omega arith;
  kept = λ n e. refl;
  goes_on = h;
}

-- One word after the other.
pub seq-Reads :
    (lo lo' : ℕ) (sets : ℕ → Bool) (s : Cursor) (g : Groups) (k k' : Cursor → Groups → Option Found)
    (x : Found) (r : Reads lo sets s g k' x)
    → Reads lo' sets r.to r.groups k x
    → Reads (lo + lo') sets s g k x
seq-Reads lo lo' sets s g k k' x r q = record {
  word = r.word ++ q.word;
  to = q.to;
  groups = q.groups;
  reads = r.reads ∙ ap (r.word ++◌) q.reads ∙ sym (append_assoc r.word q.word q.to.rest);
  long = omega (arith, length-append r.word q.word, r.long, q.long);
  kept = λ n e. q.kept n e ∙ r.kept n e;
  goes_on = q.goes_on;
}

unfoldable pub weaken :
    (lo lo' : ℕ) (sets sets' : ℕ → Bool) (s : Cursor) (g : Groups)
    (k : Cursor → Groups → Option Found) (x : Found)
    → lo' ≤ lo
    → ((n : ℕ) → sets' n ≡ false → sets n ≡ false)
    → Reads lo sets s g k x
    → Reads lo' sets' s g k x
weaken lo lo' sets sets' s g k x h e r = record {
  word = r.word;
  to = r.to;
  groups = r.groups;
  reads = r.reads;
  long = omega (arith, r.long);
  kept = λ n u. r.kept n (e n u);
  goes_on = r.goes_on;
}

-- A choice that succeeds does so by its first or by its second part.
pub or_else-cases :
    (a : Option Found) (f : Unit {0} → Option Found) (x : Found)
    → or_else a f ≡ some x
    → (a ≡ some x) ⊎ (f tt ≡ some x)
or_else-cases none f x h = inr h
or_else-cases (some r) f x h = inl h

pub only_if-holds :
    (b : Bool) (f : Unit {0} → Option Found) (x : Found) → only_if b f ≡ some x → f tt ≡ some x
only_if-holds false f x h = absurd (cc)
only_if-holds true f x h = h

prefer-cases :
    (greedy : Bool) (round stop : Unit {0} → Option Found) (x : Found)
    → prefer greedy round stop ≡ some x
    → (round tt ≡ some x) ⊎ (stop tt ≡ some x)
prefer-cases true round stop x h = or_else-cases (round tt) stop x h
prefer-cases false round stop x h = elim (or_else-cases (stop tt) round x h) [
  | inl e ↦ inr e
  | inr e ↦ inl e
]

module _ (lo : ℕ) (sets : ℕ → Bool) (m : Matcher) (inv : Inverts lo sets m) (greedy : Bool) where
  abbrev after_round :
      ℕ → Cursor → (Cursor → Groups → Option Found) → Cursor → Groups → Option Found
  after_round fuel s k s' g' =
      only_if (ltb (length s'.rest) (length s.rest)) (λ _. star_loop m greedy fuel s' g' k)

  round-Reads :
      (fuel : ℕ)
      → Inverts 0 sets (star_loop m greedy fuel)
      → (s : Cursor) (g : Groups) (k : Cursor → Groups → Option Found) (x : Found)
      → m s g (after_round fuel s k) ≡ some x
      → Reads 0 sets s g k x
  round-Reads fuel ih s g k x h =
      let r : Reads lo sets s g (after_round fuel s k) x = inv s g (after_round fuel s k) x h in
      let on =
        only_if-holds (ltb (length r.to.rest) (length s.rest))
          (λ _. star_loop m greedy fuel r.to r.groups k) x r.goes_on in
      weaken (lo + 0) 0 sets sets s g k x (omega arith) (λ n u. u)
        (seq-Reads lo 0 sets s g k (after_round fuel s k) x r (ih r.to r.groups k x on))

  pub star_loop-Reads : (fuel : ℕ) → Inverts 0 sets (star_loop m greedy fuel)
  unfolding star_loop
  star_loop-Reads zero s g k x h = eps-Reads sets s g k x h
  star_loop-Reads (suc fuel) s g k x h =
      elim (prefer-cases greedy (λ _. m s g (after_round fuel s k)) (λ _. k s g) x h) [
        | inl e ↦ round-Reads fuel (star_loop-Reads fuel) s g k x e
        | inr e ↦ eps-Reads sets s g k x e
      ]
