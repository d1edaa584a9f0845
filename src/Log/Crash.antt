-- ===== src/Log/Crash.antt =====
-- A crash at any point of a commit: after recovery the disk holds all of the transaction or nothing of
-- it.
use os_design_practice.Prelude.{
  Bool, Bool-cases, List, [], ap, arith, dec_le, false, if◌then◌else◌, inl, inr, length,
  length-append, refl, subst, suc, take, take-append_add, take-append_le, take_all, zero, ℕ, ◌++◌,
  ◌-◌, ◌<◌, ◌==◌, ◌||◌, ◌∙◌, ◌∷◌, ◌≡◌, ◌≤◌,
}
use os_design_practice.Log.{
  Disk, Write, to_log, head, install, write_log, install_trans, commit, commit_writes, write, run,
  recover_from_log,
}

abbrev pub elem : ℕ → List ℕ → Bool
elem a [] = false
elem a (b ∷ bs) = b == a || elem a bs

module _ {B : Type 0} (cache : ℕ → B) where
  -- The home locations after the transaction.
  abbrev pub committed : List ℕ → (ℕ → B) → ℕ → B
  committed bs home a = if elem a bs then cache a else home a

  run-append :
      (other : ℕ → B) (us ws : List Write) (d : Disk B)
      → run other (us ++ ws) d ≡ run other ws (run other us d)
  unfolding run
  run-append other [] ws d = refl
  run-append other (u ∷ us) ws d = run-append other us ws (write other d u)

  -- The log holds the cached blocks, from `tail` on.
  abbrev Logs : ℕ → List ℕ → Disk B → Type 0
  Logs tail [] d = Unit
  Logs tail (b ∷ bs) d = (d.logged tail ≡ cache b) × Logs (suc tail) bs d

  -- What a part of the commit leaves alone.
  record Keeps (d d' : Disk B) : Type 0 where
    header : d'.header ≡ d.header
    home : d'.home ≡ d.home

  write_log-Keeps :
      (k tail : ℕ) (bs : List ℕ) (d : Disk B) → Keeps d (run cache (take k (write_log tail bs)) d)
  unfolding run write_log
  write_log-Keeps zero tail bs d = record { header = refl; home = refl }
  write_log-Keeps (suc k) tail [] d = record { header = refl; home = refl }
  write_log-Keeps (suc k) tail (b ∷ bs) d =
      let r = write_log-Keeps k (suc tail) bs (write cache d (to_log tail b)) in
      record { header = r.header; home = r.home }

  write_log-below :
      (tail i : ℕ) (bs : List ℕ) (d : Disk B)
      → i < tail
      → (run cache (write_log tail bs) d).logged i ≡ d.logged i
  unfolding run write_log write
  write_log-below tail i [] d lt = refl
  write_log-below tail i (b ∷ bs) d lt =
      write_log-below (suc tail) i bs (write cache d (to_log tail b)) (omega arith) ∙ ground arith

  write_log-Logs :
      (tail : ℕ) (bs : List ℕ) (d : Disk B) → Logs tail bs (run cache (write_log tail bs) d)
  unfolding run write_log write
  write_log-Logs tail [] d = tt
  write_log-Logs tail (b ∷ bs) d = (
    write_log-below (suc tail) tail bs (write cache d (to_log tail b)) (omega arith) ∙ ground arith,
    write_log-Logs (suc tail) bs (write cache d (to_log tail b)),
  )

  -- Installing from the log, the first `k` blocks of it.
  record Installs (k tail : ℕ) (bs : List ℕ) (d d' : Disk B) : Type 0 where
    header : d'.header ≡ d.header
    logged : d'.logged ≡ d.logged
    others : (a : ℕ) → elem a bs ≡ false → d'.home a ≡ d.home a

  install_trans-Installs :
      (k tail : ℕ) (bs : List ℕ) (d : Disk B)
      → Installs k tail bs d (run cache (take k (install_trans tail bs)) d)
  unfolding run install_trans write
  install_trans-Installs zero tail bs d = record {
    header = refl;
    logged = refl;
    others = λ a h. refl;
  }
  install_trans-Installs (suc k) tail [] d = record {
    header = refl;
    logged = refl;
    others = λ a h. refl;
  }
  install_trans-Installs (suc k) tail (b ∷ bs) d =
      let r = install_trans-Installs k (suc tail) bs (write cache d (install tail b)) in
      record {
        header = r.header;
        logged = r.logged;
        others = λ a h. r.others a (ground arith) ∙ ground arith;
      }

  -- All of it: every block of the transaction is at home, and no other has changed.
  install_trans-committed :
      (other : ℕ → B) (tail : ℕ) (bs : List ℕ) (d : Disk B)
      → Logs tail bs d
      → (a : ℕ) → (run other (install_trans tail bs) d).home a ≡ committed bs d.home a
  unfolding run install_trans write
  install_trans-committed other tail [] d h a = refl
  install_trans-committed other tail (b ∷ bs) d h a =
      install_trans-committed other (suc tail) bs (write other d (install tail b))
        (later (suc tail) bs h.1) a
      ∙ ground (arith, h.0)
    where
      -- Installing does not touch the log.
      later : (t : ℕ) (cs : List ℕ) → Logs t cs d → Logs t cs (write other d (install tail b))
      later t [] l = tt
      later t (c ∷ cs) l = (l.0, later (suc t) cs l.1)

  length-write_log : (tail : ℕ) (bs : List ℕ) → length (write_log tail bs) ≡ length bs
  unfolding write_log
  length-write_log tail [] = refl
  length-write_log tail (b ∷ bs) = ap suc (length-write_log (suc tail) bs)

  length-install_trans : (tail : ℕ) (bs : List ℕ) → length (install_trans tail bs) ≡ length bs
  unfolding install_trans
  length-install_trans tail [] = refl
  length-install_trans tail (b ∷ bs) = ap suc (length-install_trans (suc tail) bs)

  -- A crash before the header is written: recovery finds an empty log.
  recover-empty :
      (other : ℕ → B) (d : Disk B) → d.header ≡ [] → (recover_from_log other d).home ≡ d.home
  unfolding recover_from_log run install_trans write
  recover-empty other d e = rw e

  -- A crash after it: recovery installs the log once more.
  recover-logged :
      (other : ℕ → B) (bs : List ℕ) (d : Disk B) (home : ℕ → B)
      → d.header ≡ bs
      → Logs 0 bs d
      → ((a : ℕ) → elem a bs ≡ false → d.home a ≡ home a)
      → (a : ℕ) → (recover_from_log other d).home a ≡ committed bs home a
  unfolding recover_from_log run write
  recover-logged other bs d home e l keep a =
      ap (λ (x : Disk B). x.home a) (run-append other (install_trans 0 d.header) (head [] ∷ []) d)
      ∙ ap (λ h. (run other (install_trans 0 h) d).home a) e
      ∙ install_trans-committed other 0 bs d l a
      ∙ elim (Bool-cases (elem a bs)) [ inl y ↦ rw y | inr n ↦ rw n (keep a n) ]

  -- The disk when the log and its header have been written.
  headed : List ℕ → Disk B → Disk B
  headed bs d = write cache (run cache (write_log 0 bs) d) (head bs)

  Logs-logged :
      (tail : ℕ) (bs : List ℕ) (d d' : Disk B)
      → d'.logged ≡ d.logged
      → Logs tail bs d
      → Logs tail bs d'
  Logs-logged tail [] d d' e l = tt
  Logs-logged tail (b ∷ bs) d d' e l =
      (ap (λ f. f tail) e ∙ l.0, Logs-logged (suc tail) bs d d' e l.1)

  headed-lem :
      (bs : List ℕ) (d : Disk B)
      → ((headed bs d).header ≡ bs) × ((headed bs d).home ≡ d.home) × Logs 0 bs (headed bs d)
  unfolding headed write
  headed-lem bs d = (
    refl,
    (subst (λ ws. Keeps d (run cache ws d))
        (take_all (length (write_log 0 bs)) (write_log 0 bs) (omega arith))
        (write_log-Keeps (length (write_log 0 bs)) 0 bs d)).home,
    Logs-logged 0 bs (run cache (write_log 0 bs) d) (headed bs d) refl (write_log-Logs 0 bs d),
  )

  cleared :
      (bs : List ℕ) (d : Disk B)
      → ((run cache (install_trans 0 bs ++ head [] ∷ []) d).header ≡ [])
        × ((run cache (install_trans 0 bs ++ head [] ∷ []) d).home
            ≡ (run cache (install_trans 0 bs) d).home)
  unfolding run write
  cleared bs d =
      let e = run-append cache (install_trans 0 bs) (head [] ∷ []) d in
      (ap (λ (x : Disk B). x.header) e, ap (λ (x : Disk B). x.home) e)

  run-headed :
      (bs : List ℕ) (d : Disk B) (ws : List Write)
      → run cache (write_log 0 bs ++ (head bs ∷ ws)) d ≡ run cache ws (headed bs d)
  unfolding headed run
  run-headed bs d ws = run-append cache (write_log 0 bs) (head bs ∷ ws) d

  early :
      (other : ℕ → B) (bs : List ℕ) (k : ℕ) (d : Disk B)
      → d.header ≡ []
      → k ≤ length bs
      → (recover_from_log other (run cache (take k (commit_writes bs)) d)).home ≡ d.home
  early other bs k d clean le =
      let cut =
        take-append_le k (write_log 0 bs) (head bs ∷ (install_trans 0 bs ++ head [] ∷ []))
          (omega (arith, length-write_log 0 bs)) in
      let r = write_log-Keeps k 0 bs d in
      rw cut
        (recover-empty other (run cache (take k (write_log 0 bs)) d) (r.header ∙ clean) ∙ r.home)

  -- `m` writes after the header: some installed blocks, or all of them and the cleared header.
  late :
      (other : ℕ → B) (bs : List ℕ) (m : ℕ) (d : Disk B) (a : ℕ)
      → (recover_from_log other
            (run cache (take m (install_trans 0 bs ++ head [] ∷ [])) (headed bs d))).home
          a
        ≡ committed bs d.home a
  late other bs m d a = elim (dec_le m (length bs)) [
    | yes le ↦
        let cut =
          take-append_le m (install_trans 0 bs) (head [] ∷ [])
            (omega (arith, length-install_trans 0 bs)) in
        let d' : Disk B = run cache (take m (install_trans 0 bs)) (headed bs d) in
        let r = install_trans-Installs m 0 bs (headed bs d) in
        rw cut (
          recover-logged other bs d' d.home (r.header ∙ h.0)
            (Logs-logged 0 bs (headed bs d) d' r.logged h.2)
            (λ b n. r.others b n ∙ ap (λ f. f b) h.1) a)
    | no gt ↦
        let ws : List Write = install_trans 0 bs ++ head [] ∷ [] in
        let whole = take_all m ws (
          omega (
            arith,
            length-append (install_trans 0 bs) (head [] ∷ []),
            length-install_trans 0 bs,
          )) in
        rw whole (
          ap (λ f. f a)
            (recover-empty other (run cache ws (headed bs d)) (cleared bs (headed bs d)).0)
          ∙ ap (λ f. f a) (cleared bs (headed bs d)).1
          ∙ install_trans-committed cache 0 bs (headed bs d) h.2 a
          ∙ ap (λ f. committed bs f a) h.1)
  ]
    where
      h : ((headed bs d).header ≡ bs) × ((headed bs d).home ≡ d.home) × Logs 0 bs (headed bs d)
      h = headed-lem bs d

  crash_writes :
      (other : ℕ → B) (bs : List ℕ) (k : ℕ) (d : Disk B)
      → length bs < k
      → (a : ℕ)
      → (recover_from_log other (run cache (take k (commit_writes bs)) d)).home a
        ≡ committed bs d.home a
  crash_writes other bs k d lt a =
      let m : ℕ = k - suc (length bs) in
      let cut =
        take-append_add (suc m) (write_log 0 bs) (head bs ∷ (install_trans 0 bs ++ head [] ∷ [])) k
          (omega (arith, length-write_log 0 bs)) in
      rw cut (
        ap (λ (x : Disk B). (recover_from_log other x).home a)
          (run-headed bs d (take m (install_trans 0 bs ++ head [] ∷ [])))
        ∙ late other bs m d a)

  nothing :
      (other : ℕ → B) (k : ℕ) (d : Disk B)
      → d.header ≡ []
      → (a : ℕ) → (recover_from_log other (run cache (take k []) d)).home a ≡ d.home a
  unfolding run
  nothing other k d clean a =
      let none' : List Write = [] in
      rw (take_all k none' (omega arith)) (ap (λ f. f a) (recover-empty other d clean))

  -- A crash may cut a commit after any number `k` of disk writes. Recovery then leaves every home
  -- location as it was before the transaction, if the header was not yet written, and as the whole
  -- transaction makes it if it was: never a part of it. (The log is empty at first, and what the
  -- cache holds after the crash does not matter.)
  pub commit_is_atomic :
      (other : ℕ → B) (bs : List ℕ) (k : ℕ) (d : Disk B)
      → d.header ≡ []
      → let after = (recover_from_log other (run cache (take k (commit bs)) d)).home in
        (k ≤ length bs → (a : ℕ) → after a ≡ d.home a)
        × (length bs < k → (a : ℕ) → after a ≡ committed bs d.home a)
  unfolding commit
  commit_is_atomic other [] k d clean =
      (λ le a. nothing other k d clean a, λ lt a. nothing other k d clean a)
  commit_is_atomic other (b ∷ bs) k d clean = (
    λ le a. ap (λ f. f a) (early other (b ∷ bs) k d clean le),
    λ lt a. crash_writes other (b ∷ bs) k d lt a,
  )
