-- ===== src/PrivateFile.antt =====
-- `write_private` of src-tauri/src/state.rs: a file is replaced through a temporary file beside it.
-- Modes of files are not modelled.
use privacy_lodge.Prelude.{◌≡◌, refl, ◌⊎◌, inl, inr, Option, none, some, [], take}
use privacy_lodge.Text.{Str}
use privacy_lodge.Io.{Io, atomic, write, best_effort, on_failure, ◌>>◌}
use privacy_lodge.Io.Laws.{
  Spec, Spec-bind, Spec-atomic, Spec-syscall, Spec-best_effort, Spec-on_failure,
}

-- The file, and the temporary one of the call (its name is new at each call).
pub record Slot : Type 0 where
  pub file : Option Str
  pub tmp : Option Str

module _ {E : Type 0} (not_written not_finalized : E) where
  open_tmp : Io Slot E (Unit {0})
  open_tmp = atomic not_written (λ d. record d { tmp = some [] })

  fill_tmp : Str → Io Slot E (Unit {0})
  fill_tmp s =
      write not_written (λ d. record d { tmp = some s }) (λ n d. record d { tmp = some (take n s) })

  sync_tmp : Io Slot E (Unit {0})
  sync_tmp = atomic not_written (λ d. d)

  remove_tmp : Io Slot E (Unit {0})
  remove_tmp = atomic not_written (λ d. record d { tmp = none })

  rename : Io Slot E (Unit {0})
  rename = atomic not_finalized (λ d. record { file = d.tmp; tmp = none })

  unfoldable pub write_private : Str → Io Slot E (Unit {0})
  unfolding open_tmp fill_tmp sync_tmp remove_tmp rename
  write_private s =
      on_failure (open_tmp >> (fill_tmp s >> sync_tmp)) (best_effort remove_tmp)
      >> on_failure rename (best_effort remove_tmp)

  module _ (j : Option Str) (s : Str) where
    abbrev Whole : Slot → Type 0
    Whole d = (d.file ≡ j) ⊎ (d.file ≡ some s)

    cleanup :
        Spec
          (λ d. d.file ≡ j)
          (best_effort remove_tmp)
          (λ _ d. d.file ≡ j)
          (λ _ d. d.file ≡ j)
          Whole
    unfolding remove_tmp
    cleanup =
        Spec-best_effort {Q = λ _ d. d.file ≡ j} {F = λ _ d. d.file ≡ j} _
          (Spec-atomic _ _ (λ d h. h) (λ d h. h) (λ d h. inl h) (λ d h. inl h)) (λ _ d h. h)
          (λ _ d h. h)

    filled :
        Spec
          (λ d. d.file ≡ j)
          (open_tmp >> (fill_tmp s >> sync_tmp))
          (λ _ d. (d.file ≡ j) × (d.tmp ≡ some s))
          (λ _ d. d.file ≡ j)
          Whole
    unfolding open_tmp fill_tmp sync_tmp
    filled =
        Spec-bind {Q = λ _ d. d.file ≡ j} _ _
          (Spec-atomic _ _ (λ d h. h) (λ d h. h) (λ d h. inl h) (λ d h. inl h))
          (λ _.
            Spec-bind {Q = λ _ d. (d.file ≡ j) × (d.tmp ≡ some s)} _ _
              (Spec-syscall _ _ _ _ _ (λ d h. (h, refl)) (λ n d h. h) (λ n d h. inl h))
              (λ _. Spec-atomic _ _ (λ d h. h) (λ d h. h.0) (λ d h. inl h.0) (λ d h. inl h.0)))

    renamed :
        Spec
          (λ d. (d.file ≡ j) × (d.tmp ≡ some s))
          rename
          (λ _ d. d.file ≡ some s)
          (λ _ d. d.file ≡ j)
          Whole
    unfolding rename
    renamed = Spec-atomic _ _ (λ d h. h.1) (λ d h. h.0) (λ d h. inl h.0) (λ d h. inr h.1)

    -- Whichever of its operations fails or is the last of the process, the file has its old
    -- content or the whole new one: the new one when it returns, the old one when it fails.
    pub write_private-atomic :
        Spec
          (λ d. d.file ≡ j)
          (write_private s)
          (λ _ d. d.file ≡ some s)
          (λ _ d. d.file ≡ j)
          (λ d. (d.file ≡ j) ⊎ (d.file ≡ some s))
    unfolding write_private
    write_private-atomic =
        Spec-bind _ _ (Spec-on_failure _ _ filled (λ _. cleanup))
          (λ _. Spec-on_failure _ _ renamed (λ _. cleanup))
