-- ===== src/Storage/SnapshotFile/Load.antt =====
-- A snapshot that is saved and loaded again (pkg/storage/snapshot.go).
use kv_store.Common.{
  ◌≡◌, refl, ap, ◌∙◌, true, false, Option, none, some, [], ◌∷◌, ◌++◌, Bytes, bytes_eq_iff,
  bytes_eq_refl, length, arith,
}
use kv_store.Common.Dict.{Dict, lookup, insert, lookup-insert, UniqueKeys, lookup-empty}
use kv_store.Storage.Crypto.{
  Aead, IsGcm, encrypt, decrypt-encrypt, snapshot_magic, at_rest_nonce_size,
}
use kv_store.Storage.MemStore.{MemStore, Entry}
use kv_store.Storage.SnapshotFile.{
  SnapshotFile, Json, snapshot_version, fill, decode_parsed, saved_onto, decode_snapshot,
  snapshot_bytes, serialize_snapshot, is_encrypted, load_snapshot, restore_snapshot,
}

-- What the JSON of a map of text promises: it decodes to a map that agrees with the first on every key, and has
-- no key twice, and it does not begin with the four bytes that mark a sealed file. `IsText` says which maps have
-- only strings that are valid UTF-8; other bytes are replaced.
pub record IsJson (j : Json) (IsText : Dict Entry → Type 0) : Type 0 where
  pub again :
      (d : Dict Entry)
      → IsText d
      → (d' : Dict Entry) × (j.unmarshal_file
            (j.marshal (record { v = snapshot_version; entries = some d }))
          ≡ some (record { v = snapshot_version; entries = some d' }))
        × UniqueKeys d'
        × ((k : Bytes) → lookup k d' ≡ lookup k d)
  pub unmarked :
      (d : Dict Entry)
      → is_encrypted (j.marshal (record { v = snapshot_version; entries = some d })) ≡ false

lookup-fill :
    (k : Bytes) (l dst : Dict Entry)
    → UniqueKeys l
    → lookup k (fill l dst) ≡ elim (lookup k l) [ none ↦ lookup k dst | some e ↦ some e ]
unfolding fill lookup
lookup-fill k [] dst u = refl
lookup-fill k ((j, e) ∷ l) dst u =
    ground (arith, lookup-fill k l (insert j e dst) u.1, lookup-insert j k e dst, bytes_eq_iff j k)

fallback :
    {A : Type 0} {a : Option A} (o : Option A)
    → a ≡ none
    → (elim o [ none ↦ a | some e ↦ some e ]) ≡ o
fallback none h = h
fallback (some e) h = refl

module _ (j : Json) (IsText : Dict Entry → Type 0) (codec : IsJson j IsText) where
  abbrev written : Dict Entry → Bytes
  written d = j.marshal (record { v = snapshot_version; entries = some d })

  -- What was marshalled is decoded to a map that agrees with it.
  decode-marshal :
      (d : Dict Entry)
      → IsText d
      → (d' : Dict Entry) × (decode_snapshot j (written d) [] ≡ some d')
        × ((k : Bytes) → lookup k d' ≡ lookup k d)
  unfolding decode_snapshot
  decode-marshal d t =
      let (d', e, u, same) = codec.again d t in
      (
        fill d' [],
        ap (λ (o : Option SnapshotFile). decode_parsed o (j.unmarshal_v1 (written d)) []) e,
        (λ k. lookup-fill k d' [] u ∙ fallback (lookup k d') (lookup-empty k) ∙ same k),
      )

-- What the restart relies on of the key, where there is one.
abbrev pub IsCipher : Option Aead → Type 0
IsCipher none = Unit
IsCipher (some c) = IsGcm c

prefix-magic : (sealed : Bytes) → is_encrypted (snapshot_magic ++ sealed) ≡ true
prefix-magic sealed = bytes_eq_refl snapshot_magic

-- A map of text that is saved, plain or under a cipher that does what GCM promises with a random of 12 bytes, is
-- written without an error, and what a start loads with the same key agrees with it on every key, whatever the
-- store had before.
pub load_snapshot-snapshot_bytes :
    (j : Json) (IsText : Dict Entry → Type 0) (cipher : Option Aead) (random : Bytes)
    (m before : MemStore)
    → IsJson j IsText
    → IsText m.items
    → IsCipher cipher
    → length random ≡ at_rest_nonce_size
    → (file : Bytes) × (snapshot_bytes j cipher (some random) m ≡ some file)
      × (m' : MemStore) × (load_snapshot j cipher (some file) before ≡ some m')
      × ((k : Bytes) → lookup k m'.items ≡ lookup k m.items)
unfolding snapshot_bytes load_snapshot encrypt
load_snapshot-snapshot_bytes j IsText none random m before codec t c n =
    let (d, e, same) = decode-marshal j IsText codec m.items t in
    (
      written j IsText codec m.items,
      refl,
      record before { items = d },
      rw (codec.unmarked m.items, e) refl,
      same,
    )
load_snapshot-snapshot_bytes j IsText (some a) random m before codec t c n =
    let (d, e, same) = decode-marshal j IsText codec m.items t in
    let plain = written j IsText codec m.items in
    (
      snapshot_magic ++ (random ++ a.seal random plain),
      refl,
      record before { items = d },
      rw (prefix-magic (random ++ a.seal random plain), decrypt-encrypt a random plain c n, e) refl,
      same,
    )

-- The same for the store that is saved and started without a key.
pub load_snapshot-plain :
    (j : Json) (IsText : Dict Entry → Type 0) (m before : MemStore)
    → IsJson j IsText
    → IsText m.items
    → (m' : MemStore) × (load_snapshot j none (snapshot_bytes j none none m) before ≡ some m')
      × ((k : Bytes) → lookup k m'.items ≡ lookup k m.items)
unfolding snapshot_bytes load_snapshot
load_snapshot-plain j IsText m before codec t =
    let (d, e, same) = decode-marshal j IsText codec m.items t in
    (record before { items = d }, rw (codec.unmarked m.items, e) refl, same)

-- A sealed file is refused without a key, and a file that is not sealed is refused with one.
pub load_snapshot-refused :
    (j : Json) (cipher : Aead) (file : Bytes) (m : MemStore)
    → (is_encrypted file ≡ true → load_snapshot j none (some file) m ≡ none)
      × (is_encrypted file ≡ false → load_snapshot j (some cipher) (some file) m ≡ none)
unfolding load_snapshot
load_snapshot-refused j cipher file m = ((λ h. rw h refl), (λ h. rw h refl))

-- What a leader serializes of a map of text, a follower without a key restores to a map that agrees with it on every
-- key, whatever the follower had, and writes as its own snapshot.
pub restore_snapshot-serialize :
    (j : Json) (IsText : Dict Entry → Type 0) (m follower : MemStore)
    → IsJson j IsText
    → IsText m.items
    → (m' : MemStore) × (restore_snapshot j none none (serialize_snapshot j m) follower
        ≡ some (m', snapshot_bytes j none none m'))
      × ((k : Bytes) → lookup k m'.items ≡ lookup k m.items)
unfolding restore_snapshot serialize_snapshot
restore_snapshot-serialize j IsText m follower codec t =
    let (d, e, same) = decode-marshal j IsText codec m.items t in
    (record follower { items = d }, ap (saved_onto j none none follower) e, same)
