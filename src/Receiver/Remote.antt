-- ===== src/Receiver/Remote.antt =====
-- src/sacn/mem/receiver/remote_source.c: the handles of remote sources, by their CID, and back.
use s_acn.Prelude.{
  ℕ, ◌+◌, ◌-◌, ◌%◌, ◌^◌, Bool, true, false, ◌&&◌, leb, ◌==◌, if◌then◌else◌, Option, none, some,
}
use s_acn.EtcPal.{RbTree, IntHandleManager, EtcPalError, ok, not_found, no_mem, sys, is_ok}
use s_acn.SourceLoss.State.{remote_source_invalid}

-- SacnRemoteSourceHandle
pub record RemoteHandle : Type 0 where
  pub cid : ℕ
  pub handle : ℕ

-- SacnRemoteSourceCid
pub record RemoteCid : Type 0 where
  pub handle : ℕ
  pub cid : ℕ
  pub refcount : ℕ

abbrev pub HandleTree : Type 1
HandleTree = RbTree RemoteHandle (λ r. r.cid)

abbrev pub CidTree : Type 1
CidTree = RbTree RemoteCid (λ r. r.handle)

-- The outcome of the two allocations of add_remote_source_handle. `junk` is what the memory of a new
-- handle holds where its CID will be, before that is written.
pub record Memory : Type 0 where
  pub new_handle : Bool
  pub new_cid : Bool
  pub junk : ℕ

-- kSacnMaxValidSourceHandleValue
abbrev max_source_handle : ℕ
max_source_handle = 0xfffe

module _ (A : HandleTree) (B : CidTree) (H : IntHandleManager) where
  -- The static variables of the file.
  pub record Remotes : Type 0 where
    pub handles : A.Tree
    pub cids : B.Tree
    pub manager : H.Manager

  unfoldable pub init_remote_sources : Remotes
  init_remote_sources = record {
    handles = A.init;
    cids = B.init;
    manager = H.init_manager max_source_handle;
  }

  unfoldable pub get_remote_source_handle : ℕ → Remotes → ℕ
  get_remote_source_handle cid r = elim (A.find cid r.handles) [
    | none ↦ remote_source_invalid
    | some h ↦ h.handle
  ]

  unfoldable pub get_remote_source_cid : ℕ → Remotes → Option ℕ
  get_remote_source_cid handle r =
      if handle == remote_source_invalid
      then none
      else elim (B.find handle r.cids) [ none ↦ none | some c ↦ some c.cid ]

  unfoldable pub in_use : ℕ → Remotes → Bool
  unfolding get_remote_source_cid
  in_use k r = elim (get_remote_source_cid (k % 2 ^ 16) r) [ none ↦ false | some _ ↦ true ]

  -- add_remote_source_handle for a CID that has no handle yet.
  unfoldable pub add_new : Memory → ℕ → Remotes → EtcPalError × Option ℕ × Remotes
  unfolding in_use
  add_new memory cid r =
      if memory.new_handle && memory.new_cid
      then (let (k, manager) = H.get_next (λ i. in_use i r) r.manager in
          let handle = k % 2 ^ 16 in
          let (e, handles) = A.insert (record { cid = cid; handle = handle }) r.handles in
          let (f, cids) = B.insert (record { handle = handle; cid = cid; refcount = 1 }) r.cids in
          let removed = (A.remove cid handles).1 in
          if is_ok e
          then (if is_ok f
              then (ok, some handle, record { handles = handles; cids = cids; manager = manager })
              else (f, none, record { handles = removed; cids = cids; manager = manager }))
          else (e, none, record { handles = removed; cids = r.cids; manager = manager }))
      else if memory.new_handle
      then (no_mem, none, record r { handles = (A.remove memory.junk r.handles).1 })
      else (no_mem, none, r)

  unfoldable pub add_remote_source_handle : Memory → ℕ → Remotes → EtcPalError × Option ℕ × Remotes
  unfolding add_new
  add_remote_source_handle memory cid r = elim (A.find cid r.handles) [
    | none ↦ add_new memory cid r
    | some h ↦ elim (B.find h.handle r.cids) [
      | none ↦ (sys, some h.handle, r)
      | some c ↦ (
        ok,
        some h.handle,
        record r { cids = B.store (record c { refcount = c.refcount + 1 }) r.cids },
      )
    ]
  ]

  unfoldable pub remove_remote_source_handle : ℕ → Remotes → EtcPalError × Remotes
  remove_remote_source_handle handle r =
      if handle == remote_source_invalid then (sys, r) else elim (B.find handle r.cids) [
        | none ↦ (not_found, r)
        | some c ↦
            if leb c.refcount 1
            then (let (e, handles) = A.remove c.cid r.handles in
                let (f, cids) = B.remove handle r.cids in
                ((if is_ok e then f else e), record r { handles = handles; cids = cids }))
            else (ok, record r { cids = B.store (record c { refcount = c.refcount - 1 }) r.cids })
      ]
