-- ===== src/Slab/Reads.antt =====
-- What keys read after the operations of crates/kwokka-core/src/slab/slab.rs: the slab as a map from
-- issued keys to values.
use kwokka.Base.{ℕ, ◌≡◌, true}
use kwokka.Slab.{Slab, ok, found, missing, insert, get, remove, retire_slot}
use kwokka.Slab.Reservation.{reserve, install, unreserve}
use kwokka.Slab.Cases.{IsWellFormed, IsIssued}
use kwokka.Slab.Lookup.{Differs, insert-Stores}
use kwokka.Slab.Removal.{remove-Forgets}
use kwokka.Slab.Reserve.{reserve-Promises}

module _ {ℓ} {A : Type ℓ} where
  -- A successful `insert` on a well-formed slab returns a key whose generation marks an occupied
  -- slot, under which nothing was stored before and the value is stored now; any other key `k` of
  -- that kind reads what it read.
  pub insert-reads :
      (s t : Slab A) (value : A) (key k : ℕ)
      → IsWellFormed s
      → insert s value ≡ ok (t, key)
      → IsIssued k
      → Differs k key
      → IsIssued key × (get s key ≡ missing) × (get t key ≡ found value) × (get t k ≡ get s k)
  insert-reads s t value key k w e issued d =
      let r = insert-Stores s t value key w e in
      (r.issued, r.absent, r.present, r.others k issued d)

  -- `remove` with a key whose generation marks an occupied slot returns what `get` would.
  -- Afterwards neither `get` nor `remove` finds anything under the key, and any other key `k` of
  -- that kind reads what it read. `retire_slot` leaves the same slab.
  pub remove-reads :
      (s : Slab A) (key k : ℕ)
      → IsIssued key
      → IsIssued k
      → Differs k key
      → let t = (remove s key).0 in
        ((remove s key).1 ≡ get s key)
        × (get t key ≡ missing)
        × ((remove t key).1 ≡ missing)
        × ((retire_slot s key).0 ≡ t)
        × (get t k ≡ get s k)
  remove-reads s key k issued k_issued d =
      let r = remove-Forgets s key issued in (r.0, r.1.gone, r.2, r.3, r.1.others k k_issued d)

  -- A successful `reserve` on a well-formed slab changes what no issued key `k` reads and promises a
  -- key that reads nothing yet: `install` with it succeeds and stores the value under it, leaving
  -- what any other issued key `k` reads alone, and `unreserve` with it gives back the slab as it
  -- was.
  pub reserve-reads :
      (s t : Slab A) (key : ℕ) (value : A) (k : ℕ)
      → IsWellFormed s
      → reserve s ≡ ok (t, key)
      → IsIssued k
      → Differs k key
      → IsIssued key
        × (get t k ≡ get s k)
        × (get t key ≡ missing)
        × ((install t key value).1 ≡ true)
        × (get (install t key value).0 key ≡ found value)
        × (get (install t key value).0 k ≡ get s k)
        × (unreserve t key ≡ (s, true))
  reserve-reads s t key value k w e issued d =
      let r = reserve-Promises s t key w e in
      (
        r.issued,
        r.unread k issued,
        r.pending,
        r.commits value,
        (r.stores value).present,
        (r.stores value).others k issued d,
        r.withdraws,
      )
