-- ===== src/Controller/Listed.antt =====
-- A registry of listeners as a list of the events' names: the interface of Controller/Listeners can be met.
use analisis_de_protocolo_de.Prelude.{
  ℕ, ◌+◌, ◌≡◌, refl, ap, true, false, List, [], ◌∷◌, ◌==◌, if◌then◌else◌, arith, ==_iff, Bool-cases,
  inl, inr,
}
use analisis_de_protocolo_de.Controller.Listeners.{EventName, order, same_name, Emitter}

-- The number of listeners of an event.
unfoldable pub count : EventName → List EventName → ℕ
count name [] = 0
count name (l ∷ ls) = let rest = count name ls in if same_name l name then rest + 1 else rest

unfoldable pub removed : EventName → List EventName → List EventName
removed m [] = []
removed m (l ∷ ls) = let rest = removed m ls in if same_name l m then rest else l ∷ rest

-- A listener of the one event is a listener of the other where the names are the same.
same_name-eq : (l m n : EventName) → same_name l m ≡ true → same_name l n ≡ same_name m n
unfolding same_name
same_name-eq l m n h = ap (λ x. x == order n) ((==_iff (order l) (order m)).0 h)

same_name-differs :
    (n m l : EventName) → same_name l m ≡ false → same_name m n ≡ true → same_name l n ≡ false
unfolding same_name
same_name-differs n m l u v = ground (arith, u, v)

pub count-removed :
    (n m : EventName) (ls : List EventName)
    → count n (removed m ls) ≡ (if same_name m n then 0 else count n ls)
unfolding count removed
count-removed n m [] = ground arith
count-removed n m (l ∷ ls) = elim (Bool-cases (same_name l m)) [
  | inl u ↦ ground (arith, u, same_name-eq l m n u, count-removed n m ls)
  | inr u ↦ ground (arith, u, count-removed n m ls, same_name-differs n m l u)
]

unfoldable pub listed : Emitter
unfolding count removed
listed = record {
  Registry = List EventName;
  no_listeners = [];
  on = λ n ls. n ∷ ls;
  remove_all_listeners = removed;
  listener_count = count;
  count-no_listeners = λ n. refl;
  count-on = λ n m ls. refl;
  count-remove_all_listeners = count-removed;
}
