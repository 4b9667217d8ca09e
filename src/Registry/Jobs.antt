-- ===== src/Registry/Jobs.antt =====
-- What may become of a refresh job: a lease epoch only grows, and a job that is done stays so.
use modall.Common.{
  ℕ, ◌∙◌, ◌≡◌, Bool-cases, arith, ◌≤◌, ◌==◌, ap, Option, String, ◌&&◌, false, true, inl, none, refl,
  inr,
}
use modall.Registry.Connections.{obsolete_job, is_outstanding}
use modall.Registry.Store.{DiscoveryRefreshJob, RefreshJobStatus}

pub record JobMoves (j k : DiscoveryRefreshJob) : Type 0 where
  pub same_id : k.id ≡ j.id
  pub same_allocation :
      (k.workspace_id ≡ j.workspace_id)
      × (k.actor_user_id ≡ j.actor_user_id)
      × (k.connection_id ≡ j.connection_id)
      × (k.connection_version_id ≡ j.connection_version_id)
      × (k.generation ≡ j.generation)
      × (k.control_epoch ≡ j.control_epoch)
  pub epoch : j.lease_epoch ≤ k.lease_epoch
  pub final : is_outstanding j.status ≡ false → k.status ≡ j.status

pub JobMoves-refl : (j : DiscoveryRefreshJob) → JobMoves j j
JobMoves-refl j = record {
  same_id = refl;
  same_allocation = (refl, refl, refl, refl, refl, refl);
  epoch = omega arith;
  final = λ _. refl;
}

pub JobMoves-trans : (i j k : DiscoveryRefreshJob) → JobMoves i j → JobMoves j k → JobMoves i k
JobMoves-trans i j k p q =
    let (p0, p1, p2, p3, p4, p5) = p.same_allocation in
    let (q0, q1, q2, q3, q4, q5) = q.same_allocation in
    record {
      same_id = q.same_id ∙ p.same_id;
      same_allocation = (q0 ∙ p0, q1 ∙ p1, q2 ∙ p2, q3 ∙ p3, q4 ∙ p4, q5 ∙ p5);
      epoch = omega (arith, p.epoch, q.epoch);
      final = λ h. q.final (ap is_outstanding (p.final h) ∙ h) ∙ p.final h;
    }

-- an outstanding job may get any status, owner and expiry, and a later lease epoch
pub outstanding-JobMoves :
    (j : DiscoveryRefreshJob) (s : RefreshJobStatus) (owner : Option String) (e : ℕ)
    (expires : Option ℕ)
    → is_outstanding j.status ≡ true
    → j.lease_epoch ≤ e
    → JobMoves j
        (record j { status = s; lease_owner = owner; lease_epoch = e; lease_expires_at = expires })
outstanding-JobMoves j s owner e expires running le = record {
  same_id = refl;
  same_allocation = (refl, refl, refl, refl, refl, refl);
  epoch = le;
  final = λ h. cc;
}

pub obsolete_job-JobMoves :
    (workspace connection : ℕ) (j : DiscoveryRefreshJob)
    → JobMoves j (obsolete_job workspace connection j)
unfolding obsolete_job
obsolete_job-JobMoves workspace connection j =
    elim (Bool-cases
      (j.workspace_id == workspace && j.connection_id == connection && is_outstanding j.status)) [
        | inl hit ↦ rw hit (
            outstanding-JobMoves j RefreshJobStatus.obsolete none j.lease_epoch none (ground arith)
              (omega arith))
        | inr miss ↦ rw miss (JobMoves-refl j)
      ]
