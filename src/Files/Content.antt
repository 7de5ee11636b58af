-- ===== src/Files/Content.antt =====
-- What a regular file holds that WriteTar has written.
use dateilager.Prelude.{
  ℕ, zero, suc, ◌∷◌, ◌≡◌, ◌≤◌, refl, ap, sym, subst, ◌∙◌, inl, inr, Bool, true, false, Bool-cases,
  List, [], ◌++◌, append-nil, Bytes, length, drop, ltb, ◌==◌, if◌then◌else◌, arith,
}
use dateilager.Result.{Result-cases, ok}
use dateilager.Files.System.{System, pure, ◌>>=◌, ◌>>◌, >>=-eq-ok}
use dateilager.Files.Writer.{
  Header, retry_file_errors, pre_allocate, lift_result, ensure_dir, fix_mode, close_file,
  write_file,
}

module _ {D H : Type 0} (os : System D H) where
  -- What package os documents of an open file: the path that it was opened at names it, it starts
  -- empty and at its start, a preallocation extends it up to the size asked for at most, a write at
  -- the start replaces what was there, and Chmod and Close keep what it holds. `Open path file n d`
  -- says that the path names the file, and that n is its offset.
  pub record IsTruncating (Open : Bytes → H → ℕ → D → Type 0) : Type 0 where
    pub opened :
        (path : Bytes) (mode : ℕ) (d : D) (file : H)
        → (os.open_file path mode d).0 ≡ ok file
        → Open path file 0 (os.open_file path mode d).1
          × (os.read_file path (os.open_file path mode d).1 ≡ ok [])
    pub allocated :
        (path : Bytes) (file : H) (size n : ℕ) (d : D) (old : Bytes)
        → Open path file n d
        → os.read_file path d ≡ ok old
        → length old ≤ size
        → Open path file n (os.fallocate file size d).1
          × ((new : Bytes) × (os.read_file path (os.fallocate file size d).1 ≡ ok new)
              × (length new ≤ size))
    pub written :
        (path : Bytes) (file : H) (bytes old : Bytes) (d : D)
        → Open path file 0 d
        → os.read_file path d ≡ ok old
        → (os.write file bytes d).0 ≡ ok tt
        → Open path file (length bytes) (os.write file bytes d).1
          × (os.read_file path (os.write file bytes d).1 ≡ ok (bytes ++ drop (length bytes) old))
    pub changed :
        (path : Bytes) (file : H) (mode n : ℕ) (d : D)
        → Open path file n d
        → Open path file n (os.chmod file mode d).1
          × (os.read_file path (os.chmod file mode d).1 ≡ os.read_file path d)
    pub closed :
        (path : Bytes) (file : H) (n : ℕ) (d : D)
        → Open path file n d
        → os.read_file path (os.close file d) ≡ os.read_file path d

  module _ (Open : Bytes → H → ℕ → D → Type 0) (law : IsTruncating Open) (path : Bytes) where
    -- The path names the open file, at this offset, with this content.
    abbrev Holds : H → ℕ → Bytes → D → Type 0
    Holds file n bytes d = Open path file n d × (os.read_file path d ≡ ok bytes)

    retry_opened :
        (mode : ℕ) (d : D) (file : H)
        → (retry_file_errors os path (os.open_file path mode) d).0 ≡ ok file
        → Holds file 0 [] (retry_file_errors os path (os.open_file path mode) d).1
    unfolding retry_file_errors ◌>>=◌
    retry_opened mode d file h = elim (Result-cases (os.open_file path mode d).0) [
      | inl (f, q) ↦
          let same : f ≡ file = cc (rw (q, retry_file_errors) at h) in
          rw (q, retry_file_errors) (law.opened path mode d file (q ∙ ap ok same))
      | inr (e, q) ↦ rw (q, retry_file_errors) (again (rw (q, retry_file_errors) at h))
    ]
      where
        again :
            ((os.remove_all path >> os.open_file path mode) (os.open_file path mode d).1).0
              ≡ ok file
            → Holds file 0 []
                ((os.remove_all path >> os.open_file path mode) (os.open_file path mode d).1).1
        again k = elim (Result-cases (os.remove_all path (os.open_file path mode d).1).0) [
          | inl (u, q) ↦ rw q (law.opened path mode _ file (rw q at k))
          | inr (e, q) ↦ absurd (cc (rw q at k))
        ]

    pre_allocated :
        (file : H) (size : ℕ) (d : D)
        → Holds file 0 [] d
        → (old : Bytes) × Holds file 0 old (pre_allocate os file size d).1 × (length old ≤ size)
    unfolding pre_allocate
    pre_allocated file size d (o, r) = elim (Bool-cases (ltb 0 size)) [
      | inl e ↦
          let (o', (old, r', l)) = law.allocated path file size 0 d [] o r (omega arith) in
          rw (e, pre_allocate) (old, (o', r'), l)
      | inr e ↦ rw (e, pre_allocate) ([], (o, r), omega arith)
    ]

    drop_all : (n : ℕ) (xs : Bytes) → length xs ≤ n → drop n xs ≡ []
    drop_all zero [] l = refl
    drop_all (suc n) [] l = refl
    drop_all zero (x ∷ xs) l = absurd (omega (arith, l))
    drop_all (suc n) (x ∷ xs) l = drop_all n xs (omega (arith, l))

    mode_fixed :
        (b : Bool) (file : H) (mode n : ℕ) (bytes : Bytes) (d : D)
        → Holds file n bytes d
        → Holds file n bytes ((if b then pure tt else fix_mode os file mode) d).1
    unfolding fix_mode ◌>>=◌
    mode_fixed true file mode n bytes d k = k
    mode_fixed false file mode n bytes d (o, r) = elim (Result-cases (os.stat file d)) [
      | inr (e, q) ↦ rw q (o, r)
      | inl (found, q) ↦ elim (Bool-cases (found == mode)) [
        | inl k ↦ rw (q, k) (o, r)
        | inr k ↦ let (o', r') = law.changed path file mode n d o in rw (q, k) (o', r' ∙ r)
      ]
    ]

  closes :
      (file : H) (dirs dirs' : List Bytes) (d d' : D)
      → (close_file os file >> pure dirs) d ≡ (ok dirs', d')
      → os.close file d ≡ d'
  unfolding ◌>>=◌
  closes file dirs dirs' d d' h = ap (λ x. x.1) h

  -- If the case of a regular file ends without an error, its path names a file that holds the
  -- content of the entry and nothing else, whatever was there and was preallocated; where open files
  -- behave as package os documents, and the header states the length of the content.
  pub write_file-content :
      (Open : Bytes → H → ℕ → D → Type 0) (path : Bytes) (header : Header) (bytes : Bytes)
      (dirs dirs' : List Bytes) (d d' : D)
      → IsTruncating Open
      → header.content ≡ ok bytes
      → header.size ≡ length bytes
      → write_file os path header dirs d ≡ (ok dirs', d')
      → os.read_file path d' ≡ ok bytes
  unfolding write_file
  write_file-content Open path header bytes dirs dirs' d d' law c s run =
      let (made, _, run1) = >>=-eq-ok (ensure_dir os dirs (os.dir path)) _ d run in
      let d1 = (ensure_dir os dirs (os.dir path) d).1 in
      let (file, o, run2) =
        >>=-eq-ok (retry_file_errors os path (os.open_file path header.mode)) _ d1 run1 in
      let d2 = (retry_file_errors os path (os.open_file path header.mode) d1).1 in
      let (_, _, run3) = >>=-eq-ok (pre_allocate os file header.size) _ d2 run2 in
      let d3 = (pre_allocate os file header.size d2).1 in
      let (content, q, run4) = >>=-eq-ok (lift_result os header.content) _ d3 run3 in
      let (_, w, run5) = >>=-eq-ok (os.write file content) _ d3 run4 in
      let d4 = (os.write file content d3).1 in
      let (_, _, run6) =
        >>=-eq-ok (if made.0 then pure tt else fix_mode os file header.mode) _ d4 run5 in
      let d5 = ((if made.0 then pure tt else fix_mode os file header.mode) d4).1 in
      let h2 = retry_opened Open law path header.mode d1 file o in
      let (old, h3, l) = pre_allocated Open law path file header.size d2 h2 in
      let (o4, r4) = law.written path file content old d3 h3.0 h3.1 w in
      let same : content ≡ bytes = cc (q, c) in
      let whole : content ++ drop (length content) old ≡ bytes =
        ap (λ rest. content ++ rest)
          (drop_all Open law path (length content) old
            (subst (λ n. length old ≤ n) (s ∙ ap length (sym same)) l))
        ∙ append-nil content
        ∙ same in
      let (o5, r5) =
        mode_fixed Open law path made.0 file header.mode (length content) bytes d4
          (o4, r4 ∙ ap ok whole) in
      let ended : os.close file d5 ≡ d' = closes file made.1 dirs' d5 d' run6 in
      subst (λ x. os.read_file path x ≡ ok bytes) ended
        (law.closed path file (length content) d5 o5 ∙ r5)
