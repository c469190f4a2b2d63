-- ===== src/Unix/Parsing.antt =====
-- systems/unix/readdir_linux.go: a round of `readDirEntries` on a record of the buffer.
use wasi_go.Base.{
  ℕ, suc, ◌+◌, ◌-◌, ◌<◌, ◌≤◌, ◌==◌, leb, ltb, ltb_of_le, ◌≡◌, refl, ap, ◌∙◌, sym, subst, true,
  false, List, [], ◌∷◌, ◌++◌, length, take, drop, length-append, arith, Bool-cases, inl, inr, ok,
}
use mathlib.Core.List.{append_assoc, append-nil}
use wasi_go.File.{Bytes, DirEntry}
use wasi_go.Unix.Calls.{returned}
use wasi_go.Unix.Directory.{
  DirKernel, Dirbuf, Request, Round, stop, go, bytes_of, parse_entry, ino_at, reclen_at, typ_at,
  until_zero,
}
use wasi_go.Unix.Dirents.{
  Dirent, IsDirent, AllDirents, encode, encode_all, wanted, length-encode, ino_at-encode,
  reclen_at-encode, typ_at-encode, body_at-encode,
}
use wasi_go.Unix.Listing.{
  live, entry_of, live-append, append-ne-nil, AllDirents-right, AllDirents-left, ListsDir, Holds,
  pending, GoesOn, RoundDoes,
}

module _ {File World : Type 0} (k : DirKernel File World) (f : File) (all : List Dirent)
    (valid : AllDirents all) (l : ListsDir k f all) where
  module _ (d : Dirbuf File) (w : World) (hd : Holds k f all valid l d w) (e : Dirent)
      (bs : List Dirent) (first : hd.buffered ≡ e ∷ bs) where
    abbrev b : Bytes
    b = bytes_of d.buffer

    rest_bytes : b ≡ hd.pre ++ (encode e ++ (encode_all bs ++ hd.post))
    rest_bytes =
        hd.bytes
        ∙ ap (λ x. hd.pre ++ (encode_all x ++ hd.post)) first
        ∙ ap (λ x. hd.pre ++ x) (append_assoc (encode e) (encode_all bs) hd.post)

    is_dirent : IsDirent e
    is_dirent =
        let v =
          AllDirents-left hd.buffered (l.rest w) (
            AllDirents-right hd.done (hd.buffered ++ l.rest w) (subst AllDirents hd.whole valid)) in
        (subst AllDirents first v).0

    pub len_lem : d.len ≡ length hd.pre + (19 + length e.body) + length (encode_all bs)
    len_lem =
        let lengths = ap (λ x. length (encode_all x)) first in
        omega (arith, hd.upto, lengths, length-append (encode e) (encode_all bs), length-encode e)

    reclen_lem : reclen_at b d.offset ≡ 19 + length e.body
    reclen_lem =
        rw (rest_bytes, hd.at) (reclen_at-encode hd.pre (encode_all bs ++ hd.post) e is_dirent)

    ino_lem : ino_at b d.offset ≡ e.ino
    ino_lem = rw (rest_bytes, hd.at) (ino_at-encode hd.pre (encode_all bs ++ hd.post) e is_dirent)

    typ_lem : typ_at b d.offset ≡ e.typ
    typ_lem = rw (rest_bytes, hd.at) (typ_at-encode hd.pre (encode_all bs ++ hd.post) e is_dirent)

    body_lem : take (19 + length e.body - 19) (drop (d.offset + 19) b) ≡ e.body
    body_lem = rw (rest_bytes, hd.at) (body_at-encode hd.pre (encode_all bs ++ hd.post) e is_dirent)

    -- The end of the record is within the buffer.
    fits_lem : ltb d.len (d.offset + (19 + length e.body)) ≡ false
    fits_lem = ltb_of_le (omega (arith, len_lem, hd.at))

    advance :
        (c : ℕ)
        → c ≡ live (hd.done ++ e ∷ [])
        → (hd' : Holds k f all valid l
            (record d { offset = d.offset + (19 + length e.body); cookie = c })
            w)
          × (hd'.buffered ≡ bs)
    advance c counted = (
      record {
        done = hd.done ++ e ∷ [];
        buffered = bs;
        whole =
            hd.whole
            ∙ ap (λ x. hd.done ++ (x ++ l.rest w)) first
            ∙ sym (append_assoc hd.done (e ∷ []) (bs ++ l.rest w));
        counted = counted;
        pre = hd.pre ++ encode e;
        post = hd.post;
        bytes = rest_bytes ∙ sym (append_assoc hd.pre (encode e) (encode_all bs ++ hd.post));
        at = omega (arith, hd.at, length-append hd.pre (encode e), length-encode e);
        upto = omega (arith, len_lem, length-append hd.pre (encode e), length-encode e);
        file = hd.file;
      },
      refl,
    )

    -- The cookie behind the record.
    unused_count : (e.ino == 0) ≡ true → d.cookie ≡ live (hd.done ++ e ∷ [])
    unfolding live
    unused_count unused = ground (arith, hd.counted, live-append hd.done (e ∷ []))

    used_count : (e.ino == 0) ≡ false → d.cookie + 1 ≡ live (hd.done ++ e ∷ [])
    unfolding live
    used_count used = ground (arith, hd.counted, live-append hd.done (e ∷ []))

    module _ (q : Request) where
      abbrev after : ℕ → List DirEntry
      after c = wanted q.from c (bs ++ l.rest w)

      abbrev target : List DirEntry
      target = wanted q.from d.cookie (pending k f all valid l hd)

      target_first : target ≡ wanted q.from d.cookie (e ∷ (bs ++ l.rest w))
      target_first = ap (λ x. wanted q.from d.cookie (x ++ l.rest w)) first

      target_unused : (e.ino == 0) ≡ true → target ≡ after d.cookie
      unfolding wanted
      target_unused unused = target_first ∙ rw unused refl

      target_wanted :
          (e.ino == 0) ≡ false
          → leb q.from d.cookie ≡ true
          → target ≡ entry_of d.cookie e ∷ after (d.cookie + 1)
      unfolding wanted
      target_wanted used late = target_first ∙ rw (used, late) refl

      target_passed :
          (e.ino == 0) ≡ false → leb q.from d.cookie ≡ false → target ≡ after (d.cookie + 1)
      unfolding wanted
      target_passed used early = target_first ∙ rw (used, early) refl

      goes_on :
          (out out' new : List DirEntry) (c : ℕ)
          → c ≡ live (hd.done ++ e ∷ [])
          → out' ≡ out ++ new
          → target ≡ new ++ after c
          → length out' ≤ q.room
          → GoesOn k f all valid l q out target
              (length (pending k f all valid l hd))
              out'
              (record d { offset = d.offset + (19 + length e.body); cookie = c })
              w
      goes_on out out' new c counted reply split fits =
          let (hd', same) = advance c counted in
          record {
            new = new;
            holds = hd';
            reply = reply;
            split = split ∙ ap (λ x. new ++ wanted q.from c (x ++ l.rest w)) (sym same);
            fits = fits;
            fewer =
                ap (λ x. suc (length (x ++ l.rest w))) same
                ∙ sym (ap (λ x. length (x ++ l.rest w)) first);
          }

      pub parse_entry-Does :
          (out : List DirEntry) (size : ℕ)
          → length out < q.room
          → (x : Round File World) × (parse_entry q out size b d w ≡ ok x)
            × RoundDoes k f all valid l q out target (length (pending k f all valid l hd)) x
      unfolding parse_entry
      parse_entry-Does out size room = elim (Bool-cases (e.ino == 0)) [
        | inl unused ↦ (
          go out size (record d { offset = d.offset + (19 + length e.body) }) w,
          rw (reclen_lem, fits_lem, ino_lem, unused) refl,
          goes_on out out [] d.cookie (unused_count unused) (sym (append-nil out))
              (target_unused unused) (omega arith),
        )
        | inr used ↦ elim (Bool-cases (leb q.from d.cookie)) [
          | inr early ↦ (
            go out size
                (record d { offset = d.offset + (19 + length e.body); cookie = d.cookie + 1 }) w,
            rw (reclen_lem, fits_lem, ino_lem, used, early) refl,
            goes_on out out [] (d.cookie + 1) (used_count used) (sym (append-nil out))
                (target_passed used early) (omega arith),
          )
          | inl late ↦
              let entry = entry_of d.cookie e in
              let long : ltb (19 + length e.body) 19 ≡ false = ltb_of_le (omega arith) in
              let fits : length (out ++ entry ∷ []) ≤ q.room =
                omega (arith, length-append out (entry ∷ [])) in
              elim (Bool-cases (leb size (24 + length (until_zero e.body)))) [
                | inl full ↦ (
                  stop (out ++ entry ∷ []) (returned tt) d w,
                  rw (reclen_lem, fits_lem, ino_lem, used, late, long, typ_lem, body_lem, full)
                      refl,
                  (
                    refl,
                    record {
                      new = entry ∷ [];
                      more = after (d.cookie + 1);
                      reply = refl;
                      split = target_wanted used late;
                      fits = fits;
                      progress = λ none_read. absurd (append-ne-nil out entry none_read);
                      holds = hd;
                    },
                  ),
                )
                | inr space ↦ (
                  go (out ++ entry ∷ []) (size - 24 - length (until_zero e.body))
                      (record d { offset = d.offset + (19 + length e.body); cookie = d.cookie + 1 })
                      w,
                  rw (reclen_lem, fits_lem, ino_lem, used, late, long, typ_lem, body_lem, space)
                      refl,
                  goes_on out (out ++ entry ∷ []) (entry ∷ []) (d.cookie + 1) (used_count used) refl
                      (target_wanted used late) fits,
                )
              ]
        ]
      ]
