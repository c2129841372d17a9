-- ===== src/DbWriter/Places.antt =====
-- The places of a record on its way through the writer, as permutations of lists.
use mathlib.Core.List.{Perm, append_assoc, perm_middle, perm_append_singleton, perm_append_comm}
use mathlib.Core.List.Perm
use p2p_treker.Prelude.{refl, subst, ◌∙◌, List, [], ◌∷◌, ◌++◌}

-- Moves of a record, or of a batch, from one place to another.
module _ {A : Type 0} where
  abbrev pub placed : List A → List A → List A → List A → List A → List A
  placed written failed dropped batch queue = written ++ (failed ++ (dropped ++ (batch ++ queue)))

  under : (w f : List A) {xs ys : List A} → Perm xs ys → Perm (w ++ (f ++ xs)) (w ++ (f ++ ys))
  under w f p = Perm.append_left w (Perm.append_left f p)

  pub queued :
      (w f d b q o : List A) (x : A)
      → Perm o (placed w f d b q)
      → Perm (o ++ (x ∷ [])) (placed w f d b (q ++ (x ∷ [])))
  queued w f d b q o x p =
      subst (Perm (o ++ (x ∷ [])))
        (append_assoc w (f ++ (d ++ (b ++ q))) (x ∷ [])
          ∙ rw
              (
                append_assoc f (d ++ (b ++ q)) (x ∷ []),
                append_assoc d (b ++ q) (x ∷ []),
                append_assoc b q (x ∷ []),
              )
              refl)
        (Perm.append_right (x ∷ []) p)

  -- A record that is dropped is among the dropped ones.
  dropped_now :
      (w f d r : List A) (x : A)
      → Perm (w ++ (f ++ (d ++ (x ∷ r)))) (w ++ (f ++ ((d ++ (x ∷ [])) ++ r)))
  dropped_now w f d r x = rw (append_assoc d (x ∷ []) r) (Perm.refl _)

  pub refused :
      (w f d b q o : List A) (x : A)
      → Perm o (placed w f d b q)
      → Perm (o ++ (x ∷ [])) (placed w f (d ++ (x ∷ [])) b q)
  refused w f d b q o x p = Perm.trans (queued w f d b q o x p) (
      Perm.trans
        (under w f (
          Perm.append_left d (
            subst (λ (l : List A). Perm l (x ∷ (b ++ q))) (append_assoc b q (x ∷ []))
              (perm_append_singleton x (b ++ q)))))
        (dropped_now w f d (b ++ q) x))

  pub displaced_oldest :
      (w f d b q o : List A) (y : A)
      → Perm o (placed w f d b (y ∷ q))
      → Perm o (placed w f (d ++ (y ∷ [])) b q)
  displaced_oldest w f d b q o y p =
      Perm.trans p (
        Perm.trans (under w f (Perm.append_left d (perm_middle b q)))
          (dropped_now w f d (b ++ q) y))

  pub taken :
      (w f d b q o : List A) (x : A)
      → Perm o (placed w f d b (x ∷ q))
      → Perm o (placed w f d (b ++ (x ∷ [])) q)
  taken w f d b q o x p = rw (append_assoc b (x ∷ []) q) p

  -- A batch before what stood before it.
  batch_first : (d b q : List A) → Perm (d ++ (b ++ q)) (b ++ (d ++ q))
  batch_first d b q =
      subst (λ (l : List A). Perm (d ++ (b ++ q)) l) (append_assoc b d q)
        (subst (λ (l : List A). Perm l ((b ++ d) ++ q)) (append_assoc d b q)
          (Perm.append_right q (perm_append_comm d b)))

  pub batch_lost :
      (w f d b q o : List A) → Perm o (placed w f d b q) → Perm o (placed w (f ++ b) d [] q)
  batch_lost w f d b q o p =
      rw (append_assoc f b (d ++ q)) (Perm.trans p (under w f (batch_first d b q)))

  pub batch_written :
      (w f d b q o : List A) → Perm o (placed w f d b q) → Perm o (placed (w ++ b) f d [] q)
  batch_written w f d b q o p = rw (append_assoc w b (f ++ (d ++ q))) (
      Perm.trans p (
        Perm.append_left w
          (Perm.trans (Perm.append_left f (batch_first d b q)) (batch_first f b (d ++ q)))))
