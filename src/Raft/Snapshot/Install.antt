-- ===== src/Raft/Snapshot/Install.antt =====
-- What an installed snapshot keeps (pkg/raft/snapshot.go).
use mathlib.Core.Path.{subst}
use kv_store.Common.{
  ℕ, ◌-◌, ◌≤◌, ◌<◌, ◌≡◌, refl, ◌∙◌, true, Option, none, some, Bytes, length, drop-all, sym, ap, ltb,
  Bool-cases, inl, inr, arith,
}
use kv_store.Raft.Types.{
  Node, InstallSnapshotRequest, InstallSnapshotResponse, entry_at, become_follower,
}
use kv_store.Raft.Persistence.{SaveOutcome, persist}
use kv_store.Raft.Node.{follow_leader}
use kv_store.Raft.Snapshot.{adopt_snapshot, handle_install_snapshot}
use kv_store.Raft.Snapshot.Retained.{IsOrdered, KeepsEntries, drop-KeepsEntries, same-KeepsEntries}

adopt_snapshot-KeepsEntries :
    (n : Node) (req : InstallSnapshotRequest)
    → n.last_included_index ≤ req.last_included_index
    → KeepsEntries n (adopt_snapshot n req)
unfolding adopt_snapshot
adopt_snapshot-KeepsEntries n req le =
    elim (Bool-cases (ltb (length n.log) (req.last_included_index - n.last_included_index))) [
      | inl all ↦ rw all (
          drop-KeepsEntries n _ le (
            drop-all (length n.log) n.log (omega arith)
            ∙ sym
                (drop-all (req.last_included_index - n.last_included_index) n.log (ground arith))))
      | inr less ↦ rw less (drop-KeepsEntries n _ le refl)
    ]

persist-frame :
    (out : SaveOutcome) (n : Node)
    → ((persist out n).0.log ≡ n.log)
      × ((persist out n).0.last_included_index ≡ n.last_included_index)
      × ((persist out n).0.commit_index ≡ n.commit_index)
      × ((persist out n).0.last_applied ≡ n.last_applied)
      × ((persist out n).0.term ≡ n.term)
      × ((persist out n).0.role ≡ n.role)
unfolding persist
persist-frame out n = ground arith

follow_leader-frame :
    (n : Node) (term : ℕ) (leader_id : Bytes)
    → ((follow_leader n term leader_id).log ≡ n.log)
      × ((follow_leader n term leader_id).last_included_index ≡ n.last_included_index)
      × ((follow_leader n term leader_id).commit_index ≡ n.commit_index)
      × ((follow_leader n term leader_id).last_applied ≡ n.last_applied)
unfolding follow_leader become_follower
follow_leader-frame n term leader_id = ground arith

adopt_snapshot-indexes :
    (n : Node) (req : InstallSnapshotRequest)
    → IsOrdered n
    → n.last_applied < req.last_included_index
    → IsOrdered (adopt_snapshot n req)
      × (n.commit_index ≤ (adopt_snapshot n req).commit_index)
      × ((adopt_snapshot n req).last_applied ≡ req.last_included_index)
      × ((adopt_snapshot n req).last_included_index ≡ req.last_included_index)
unfolding adopt_snapshot
adopt_snapshot-indexes n req h lt = ground arith

adopt_snapshot-kept :
    (n f p : Node) (req : InstallSnapshotRequest) (at : ℕ)
    → f.log ≡ n.log
    → f.last_included_index ≡ n.last_included_index
    → p.log ≡ (adopt_snapshot f req).log
    → p.last_included_index ≡ (adopt_snapshot f req).last_included_index
    → (adopt_snapshot f req).last_included_index ≡ req.last_included_index
    → n.last_included_index ≤ req.last_included_index
    → req.last_included_index < at
    → entry_at p at ≡ entry_at n at
unfolding KeepsEntries
adopt_snapshot-kept n f p req at l b pl pb base le lt =
    same-KeepsEntries (adopt_snapshot f req) p pb pl at (omega arith)
    ∙ adopt_snapshot-KeepsEntries f req (omega arith) at (omega arith)
    ∙ same-KeepsEntries n f b l at (omega arith)

-- The node `p` has the snapshot of `req`, and otherwise what `n` had.
pub record IsInstalled (n : Node) (req : InstallSnapshotRequest) (p : Node) : Type 0 where
  pub ordered : IsOrdered p
  pub applied : p.last_applied ≡ req.last_included_index
  pub base : p.last_included_index ≡ req.last_included_index
  pub committed : n.commit_index ≤ p.commit_index
  pub kept : (at : ℕ) → req.last_included_index < at → entry_at p at ≡ entry_at n at

module _ (out : SaveOutcome) (n : Node) (req : InstallSnapshotRequest) where
  abbrev followed : Node
  followed = follow_leader n req.term req.leader_id

  abbrev adopted : Node
  adopted = (persist out (adopt_snapshot followed req)).0

  adopted-IsInstalled :
      IsOrdered n → n.last_applied < req.last_included_index → IsInstalled n req adopted
  adopted-IsInstalled h lt =
      let fr = follow_leader-frame n req.term req.leader_id in
      let ordered : IsOrdered followed = ground arith in
      let ix = adopt_snapshot-indexes followed req ordered (omega arith) in
      let pf = persist-frame out (adopt_snapshot followed req) in
      record {
        ordered = record {
          base-applied = omega (arith, ix.0.base-applied);
          applied-committed = omega (arith, ix.0.applied-committed);
        };
        applied = omega arith;
        base = omega arith;
        committed = omega arith;
        kept = λ at more.
            adopt_snapshot-kept n followed adopted req at fr.0 fr.1 pf.0 pf.1 ix.3 (omega arith)
              more;
      }

  handle_install_snapshot-ahead :
      n.term ≤ req.term
      → n.last_applied < req.last_included_index
      → handle_install_snapshot out n req
        ≡ (adopted, some req.snapshot, record { term = followed.term; success = true })
  unfolding handle_install_snapshot
  handle_install_snapshot-ahead t lt = ground (arith, follow_leader-frame n req.term req.leader_id)

  -- A snapshot that is not from an older term and is ahead of the applied index is acknowledged and handed to
  -- the sink. The applied index and the base are then the snapshot's, the commit index does not fall, the base,
  -- applied and commit index stay in order, and each index above the snapshot's keeps its entry.
  pub install-ahead :
      IsOrdered n
      → n.term ≤ req.term
      → n.last_applied < req.last_included_index
      → ((handle_install_snapshot out n req).1 ≡ some req.snapshot)
        × ((handle_install_snapshot out n req).2.success ≡ true)
        × IsInstalled n req (handle_install_snapshot out n req).0
  install-ahead h t lt =
      let e = handle_install_snapshot-ahead t lt in
      (
        ap (λ (x : Node × Option Bytes × InstallSnapshotResponse). x.1) e,
        ap (λ (x : Node × Option Bytes × InstallSnapshotResponse). x.2.success) e,
        subst (λ (x : Node × Option Bytes × InstallSnapshotResponse). IsInstalled n req x.0) (sym e)
            (adopted-IsInstalled h lt),
      )

  -- A snapshot that is not ahead of the applied index changes neither the log nor the indexes, and its data
  -- goes nowhere.
  pub install-behind :
      req.last_included_index ≤ n.last_applied
      → ((handle_install_snapshot out n req).1 ≡ none)
        × ((handle_install_snapshot out n req).0.log ≡ n.log)
        × ((handle_install_snapshot out n req).0.last_included_index ≡ n.last_included_index)
        × ((handle_install_snapshot out n req).0.last_applied ≡ n.last_applied)
        × ((handle_install_snapshot out n req).0.commit_index ≡ n.commit_index)
  unfolding handle_install_snapshot
  install-behind le = ground (
    arith,
    follow_leader-frame n req.term req.leader_id,
    persist-frame out (follow_leader n req.term req.leader_id),
  )
