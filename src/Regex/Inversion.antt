-- ===== src/Regex/Inversion.antt =====
-- What a match that succeeds has done: it read a word that is long enough, left the groups that the
-- expression does not have alone, and went on from there.
use analisis_de_protocolo_de.Prelude.{
  ℕ, ◌-◌, not, take, ◌≡◌, refl, Bool, false, ◌||◌, Option, none, some, [], ◌∷◌, ◌++◌, ◌==◌, length,
  arith, inl, inr,
}
use analisis_de_protocolo_de.Prelude.Text.{Text}
use analisis_de_protocolo_de.Regex.{
  Re, Cursor, Groups, Found, literal, or_empty, set_group, run, eps, one, seq, or, group, back,
  star, start, line_start, end, not_ahead, is_at_end, at_line_start,
}
use Prim.Native.Nat.{min}
use analisis_de_protocolo_de.Regex.Lengths.{
  min_len, has_group, Reads, Inverts, eps-Reads, seq-Reads, weaken, or_else-cases, only_if-holds,
  star_loop-Reads,
}

abbrev at_cursor : Text → Text → Cursor
at_cursor d r = record { done = d; rest = r }

literal-reads :
    (t d r : Text) (s' : Cursor) → literal t (at_cursor d r) ≡ some s' → r ≡ t ++ s'.rest
unfolding literal
literal-reads [] d r s' h = ground arith
literal-reads (c ∷ t) d [] s' h = ground arith
literal-reads (c ∷ t) d (e ∷ r) s' h = ground (arith, literal-reads t (e ∷ d) r s')

one-Reads :
    (p : ℕ → Bool) (d r : Text) (g : Groups) (k : Cursor → Groups → Option Found) (x : Found)
    → run (one p) (at_cursor d r) g k ≡ some x
    → Reads 1 (λ _. false) (at_cursor d r) g k x
unfolding run
one-Reads p d [] g k x h = absurd (cc)
one-Reads p d (c ∷ r) g k x h = record {
  word = c ∷ [];
  to = at_cursor (c ∷ d) r;
  groups = g;
  reads = refl;
  long = omega arith;
  kept = λ n e. refl;
  goes_on = only_if-holds (p c) (λ _. k (at_cursor (c ∷ d) r) g) x h;
}

not_ahead-goes_on :
    (p : ℕ → Bool) (d r : Text) (g : Groups) (k : Cursor → Groups → Option Found) (x : Found)
    → run (not_ahead p) (at_cursor d r) g k ≡ some x
    → k (at_cursor d r) g ≡ some x
unfolding run
not_ahead-goes_on p d [] g k x h = h
not_ahead-goes_on p d (c ∷ r) g k x h =
    only_if-holds (not (p c)) (λ _. k (at_cursor d (c ∷ r)) g) x h

back-Reads :
    (n : ℕ) (s : Cursor) (g : Groups) (k : Cursor → Groups → Option Found) (x : Found)
    → run (back n) s g k ≡ some x
    → Reads 0 (λ _. false) s g k x
unfolding run
back-Reads n s g k x h = by_literal (literal (or_empty (g n)) s) refl h
  where
    by_literal :
        (o : Option Cursor)
        → literal (or_empty (g n)) s ≡ o
        → (elim o as (λ _. Option Found) [ none ↦ none | some s' ↦ k s' g ]) ≡ some x
        → Reads 0 (λ _. false) s g k x
    by_literal none e u = absurd (cc)
    by_literal (some s') e u = record {
      word = or_empty (g n);
      to = s';
      groups = g;
      reads = literal-reads (or_empty (g n)) s.done s.rest s' e;
      long = omega arith;
      kept = λ _ _. refl;
      goes_on = u;
    }

-- The group is set to what its expression has read.
group-Reads :
    (n lo : ℕ) (sets sets' : ℕ → Bool) (t : Groups → Cursor → Text)
    → ((j : ℕ) → sets' j ≡ false → (j == n || sets j) ≡ false)
    → (s : Cursor) (g : Groups) (k : Cursor → Groups → Option Found) (x : Found)
    → Reads lo sets s g (λ s' g'. k s' (set_group n (t g' s') g')) x
    → Reads lo sets' s g k x
group-Reads n lo sets sets' t e s g k x r = record {
  word = r.word;
  to = r.to;
  groups = set_group n (t r.groups r.to) r.groups;
  reads = r.reads;
  long = r.long;
  kept = λ j u. ground (arith, e j u, r.kept j);
  goes_on = r.goes_on;
}

or_false_left : (a b : Bool) → (a || b) ≡ false → a ≡ false
or_false_left a b h = ground arith

or_false_right : (a b : Bool) → (a || b) ≡ false → b ≡ false
or_false_right a b h = ground arith

-- Every match of `r` reads at least `min_len r` code units, and changes only the groups of `r`.
pub run-Reads : (r : Re) → Inverts (min_len r) (λ n. has_group n r) (run r)
unfolding run min_len has_group weaken
run-Reads eps s g k x h = eps-Reads _ s g k x h
run-Reads (one p) s g k x h =
    weaken 1 1 _ _ s g k x (omega arith) (λ _ _. refl) (one-Reads p s.done s.rest g k x h)
run-Reads (seq a b) s g k x h =
    let r = run-Reads a s g (λ s' g'. run b s' g' k) x h in
    let q = run-Reads b r.to r.groups k x r.goes_on in
    let sets = λ (n : ℕ). has_group n a || has_group n b in
    seq-Reads (min_len a) (min_len b) sets s g k (λ s' g'. run b s' g' k) x
      (weaken (min_len a) (min_len a) (λ n. has_group n a) sets s g _ x (omega arith)
        (λ n. or_false_left (has_group n a) (has_group n b)) r)
      (weaken (min_len b) (min_len b) (λ n. has_group n b) sets r.to r.groups k x (omega arith)
        (λ n. or_false_right (has_group n a) (has_group n b)) q)
run-Reads (or a b) s g k x h = elim (or_else-cases (run a s g k) (λ _. run b s g k) x h) [
  | inl e ↦
      weaken (min_len a) (min (min_len a) (min_len b)) (λ n. has_group n a) _ s g k x (omega arith)
        (λ n. or_false_left (has_group n a) (has_group n b)) (run-Reads a s g k x e)
  | inr e ↦
      weaken (min_len b) (min (min_len a) (min_len b)) (λ n. has_group n b) _ s g k x (omega arith)
        (λ n. or_false_right (has_group n a) (has_group n b)) (run-Reads b s g k x e)
]
run-Reads (group n a) s g k x h =
    group-Reads n (min_len a) (λ j. has_group j a) (λ j. j == n || has_group j a)
      (λ _ s'. take (length s.rest - length s'.rest) s.rest) (λ _ u. u) s g k x
      (run-Reads a s g _ x h)
run-Reads (back n) s g k x h = back-Reads n s g k x h
run-Reads (star greedy a) s g k x h =
    star_loop-Reads (min_len a) (λ n. has_group n a) (run a) (run-Reads a) greedy (length s.rest) s
      g k x h
run-Reads start s g k x h = eps-Reads _ s g k x (only_if-holds (is_at_end s.done) (λ _. k s g) x h)
run-Reads line_start s g k x h =
    eps-Reads _ s g k x (only_if-holds (at_line_start s.done) (λ _. k s g) x h)
run-Reads end s g k x h = eps-Reads _ s g k x (only_if-holds (is_at_end s.rest) (λ _. k s g) x h)
run-Reads (not_ahead p) s g k x h = eps-Reads _ s g k x (not_ahead-goes_on p s.done s.rest g k x h)
