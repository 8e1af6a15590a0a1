-- ===== src/Undervest/Actions.antt =====
-- The actions at the end of a message.
use undervest.Prelude.{
  ◌≡◌, ◌⊎◌, inl, inr, ap, true, List, [], ◌∷◌, ◌++◌, Bytes, beq, beq_iff, All, arith, Bool-cases,
}
use undervest.Undervest.{
  Action, delete_recipient, add_recipient, has_key, reject_actions, maybe_actions, add_actions,
}

-- An action is among those of a list.
abbrev pub Occurs : Action → List Action → Type 0
Occurs x [] = ⊥
Occurs x (y ∷ ys) = (x ≡ y) ⊎ Occurs x ys

pub Occurs-append :
    (x : Action) (xs ys : List Action) → Occurs x (xs ++ ys) → Occurs x xs ⊎ Occurs x ys
Occurs-append x [] ys h = inr h
Occurs-append x (z ∷ xs) ys (inl e) = inl (inl e)
Occurs-append x (z ∷ xs) ys (inr h) = elim (Occurs-append x xs ys h) [
  | inl k ↦ inl (inr k)
  | inr k ↦ inr k
]

pub Occurs-append_right : (x : Action) (xs ys : List Action) → Occurs x ys → Occurs x (xs ++ ys)
Occurs-append_right x [] ys h = h
Occurs-append_right x (z ∷ xs) ys h = inr (Occurs-append_right x xs ys h)

pub deleted_All :
    (P : Bytes → Type 0) (s : Bytes) (ss : List Bytes)
    → All P ss
    → Occurs (delete_recipient s) (reject_actions ss)
    → P s
unfolding reject_actions
deleted_All P s [] h k = elim k [ ]
deleted_All P s (t ∷ ss) h (inl e) = absurd cc
deleted_All P s (t ∷ ss) h (inr (inl e)) = let q : s ≡ t = cc in rw q h.0
deleted_All P s (t ∷ ss) h (inr (inr k)) = deleted_All P s ss h.1 k

pub maybe_deletes_none :
    (s : Bytes) (ss : List Bytes) → ¬ Occurs (delete_recipient s) (maybe_actions ss)
unfolding maybe_actions
maybe_deletes_none s [] h = h
maybe_deletes_none s (t ∷ ss) (inl e) = cc
maybe_deletes_none s (t ∷ ss) (inr h) = maybe_deletes_none s ss h

pub added_deletes_none :
    (s : Bytes) (m : List (Bytes × Bytes)) → ¬ Occurs (delete_recipient s) (add_actions m)
unfolding add_actions
added_deletes_none s [] h = h
added_deletes_none s ((k, v) ∷ m) (inl e) = cc
added_deletes_none s ((k, v) ∷ m) (inr h) = added_deletes_none s m h

pub has_key-Occurs :
    (k : Bytes) (m : List (Bytes × Bytes))
    → has_key k m ≡ true
    → (v : Bytes) × Occurs (add_recipient k v) (add_actions m)
unfolding has_key add_actions
has_key-Occurs k [] h = absurd cc
has_key-Occurs k ((j, v) ∷ m) h = elim (Bool-cases (beq k j)) [
  | inl e ↦ (v, inl (ap (λ (t : Bytes). add_recipient t v) ((beq_iff k j).0 e)))
  | inr e ↦ let (w, o) = has_key-Occurs k m (ground arith) in (w, inr o)
]
