-- ===== src/Ring/Laws.antt =====
-- A circular buffer against the list of its contents, oldest first.
use native.Mathlib.Nat.{mod-add-mod, mod-eq_of_lt, mod-lt}
use native.Mathlib.Numerals.{add-one}
use pgraft.Base.{
  ℕ, suc, ◌+◌, ◌-◌, ◌%◌, ◌<◌, ◌≤◌, ◌≡◌, ◌∙◌, sym, ap, List, [], ◌∷◌, ◌++◌, length, length-set,
  get_or, set, take-set_end, take-all, arith,
}
use pgraft.Ring.{Ring, push, advance}
use pgraft.Ring.Window.{window, length-window, window-mod, window-set_in, window-take}

pub record IsValid {ℓ} {A : Type ℓ} (size : ℕ) (r : Ring A) : Type ℓ where
  pub positive : 0 < size
  pub sized : length r.slots ≡ size
  pub head_in : r.head < size
  pub bounded : r.count ≤ size
  pub tail_at : r.tail ≡ (r.head + r.count) % size

module _ {ℓ} {A : Type ℓ} (size : ℕ) (d : A) where
  abbrev pub contents : Ring A → List A
  contents r = window size d r.slots r.head r.count

  pub length-contents : (r : Ring A) → length (contents r) ≡ r.count
  length-contents r = length-window size d r.slots r.head r.count

  -- The element that stands at the head.
  abbrev pub oldest : Ring A → A
  oldest r = get_or r.slots r.head d

  module _ (r : Ring A) (v : IsValid size r) where
    pub contents-push : (x : A) → r.count < size → contents (push size x r) ≡ contents r ++ (x ∷ [])
    unfolding push
    contents-push x room =
        ap (λ i. window size d (set r.slots i x) r.head (r.count + 1)) v.tail_at
        ∙ window-set_in size d r.slots r.head (r.count + 1) r.count x v.sized (omega arith)
            (omega arith)
        ∙ sym (
            take-all (r.count + 1) (set whole r.count x)
              (omega (arith, length-set whole r.count x, long)))
        ∙ take-set_end r.count whole x (omega (arith, long))
        ∙ ap (λ l. l ++ (x ∷ []))
            (window-take size d r.slots r.head (r.count + 1) r.count (omega arith))
      where
        whole : List A
        whole = window size d r.slots r.head (r.count + 1)

        long : length whole ≡ r.count + 1
        long = length-window size d r.slots r.head (r.count + 1)

    pub push-IsValid : (x : A) → r.count < size → IsValid size (push size x r)
    unfolding push
    push-IsValid x room = record {
      positive = v.positive;
      sized = length-set r.slots r.tail x ∙ v.sized;
      head_in = v.head_in;
      bounded = omega (arith, room);
      tail_at =
          ap (λ t. (t + 1) % size) v.tail_at
          ∙ mod-add-mod (r.head + r.count) size 1
          ∙ ap (λ t. t % size) (omega arith);
    }

    pub contents-advance : 0 < r.count → contents r ≡ oldest r ∷ contents (advance size r)
    unfolding advance
    contents-advance some_left =
        ap (λ n. window size d r.slots r.head n) one_less
        ∙ cc (
          ap (λ i. get_or r.slots i d) (mod-eq_of_lt v.head_in),
          ap (λ h. window size d r.slots h (r.count - 1)) (sym (add-one r.head)),
          window-mod size d r.slots (r.head + 1) (r.count - 1) v.positive,
        )
      where
        one_less : r.count ≡ suc (r.count - 1)
        one_less = omega (arith, some_left)

    pub advance-IsValid : 0 < r.count → IsValid size (advance size r)
    unfolding advance
    advance-IsValid some_left = record {
      positive = v.positive;
      sized = v.sized;
      head_in = mod-lt (r.head + 1) v.positive;
      bounded = omega (arith, v.bounded);
      tail_at =
          v.tail_at
          ∙ ap (λ t. t % size) (omega arith)
          ∙ sym (mod-add-mod (r.head + 1) size (r.count - 1));
    }
