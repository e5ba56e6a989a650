-- ===== src/Controller/Sequel.antt =====
-- What a `Reconcile` of internal/controller/*_controller.go leaves to the next one.
pub mod Domain
pub mod Alias
pub mod User
use mailu_operator.Common.{◌≡◌}
use mailu_operator.Http.{Net}
use mailu_operator.Controller.{Ctx}

-- The spec, the time of deletion and the reconciler are the same.
abbrev pub Same : {net : Net} {S : Type 0} → Ctx net S → Ctx net S → Type 0
Same s t =
    (t.object.spec ≡ s.object.spec)
    × (t.object.meta.deletion_timestamp ≡ s.object.meta.deletion_timestamp)
    × (t.reconciler ≡ s.reconciler)

-- The time of deletion and the reconciler are the same.
abbrev pub SameRun : {net : Net} {S : Type 0} → Ctx net S → Ctx net S → Type 0
SameRun s t =
    (t.object.meta.deletion_timestamp ≡ s.object.meta.deletion_timestamp)
    × (t.reconciler ≡ s.reconciler)
