-- ===== src/Unix/DirRounds.antt =====
-- systems/unix/readdir_linux.go: one round of the loop of `readDirEntries`.
use wasi_go.Base.{
  ℕ, suc, ◌-◌, ◌<◌, ◌≤◌, ◌==◌, ==_iff, ltb, ltb_of_lt, ltb_of_le, ◌≡◌, refl, ap, ◌∙◌, sym, subst,
  true, false, some, List, [], ◌∷◌, ◌++◌, length, drop, length-append, arith, Bool-cases, ◌⊎◌, inl,
  inr, Run, ok, ne_of_beq,
}
use mathlib.Core.List.{append-nil}
use wasi_go.File.{DirEntry}
use wasi_go.Unix.Calls.{returned}
use wasi_go.Unix.Calls.Laws.{ignore_eintr2-returned}
use wasi_go.Unix.Directory.{
  DirKernel, Dirbuf, Request, Round, stop, bytes_of, refilled, read_round, buffer_size,
}
use wasi_go.Unix.Dirents.{Dirent, AllDirents, encode, encode_all, wanted, length-encode}
use wasi_go.Unix.Listing.{Chunk, ListsDir, Holds, pending, RoundDoes}
use wasi_go.Unix.Parsing.{parse_entry-Does, len_lem}

List-cases : {A : Type 0} (xs : List A) → (xs ≡ []) ⊎ ((x : A) × (rest : List A) × (xs ≡ x ∷ rest))
List-cases [] = inl refl
List-cases (x ∷ xs) = inr (x, xs, refl)

module _ {File World : Type 0} (k : DirKernel File World) (f : File) (all : List Dirent)
    (valid : AllDirents all) (l : ListsDir k f all) (rounds : ℕ) (q : Request) where
  abbrev pub target : {d : Dirbuf File} {w : World} → Holds k f all valid l d w → List DirEntry
  target {d = d} hd = wanted q.from d.cookie (pending k f all valid l hd)

  abbrev pub Does : List DirEntry → List DirEntry → ℕ → Run (Round File World) → Type 0
  Does out t left m = (x : Round File World) × (m ≡ ok x) × RoundDoes k f all valid l q out t left x

  module _ (size : ℕ) (d : Dirbuf File) (w : World) (hd : Holds k f all valid l d w) where
    stops_here :
        (out : List DirEntry)
        → length out ≤ q.room
        → ((out ≡ []) → q.room ≡ 0)
        → Does out
            (target hd)
            (length (pending k f all valid l hd))
            (ok (stop out (returned tt) d w))
    stops_here out fits empty = (
      stop out (returned tt) d w,
      refl,
      (
        refl,
        record {
          new = [];
          more = target hd;
          reply = sym (append-nil out);
          split = refl;
          fits = fits;
          progress = λ e. inr (empty e);
          holds = hd;
        },
      ),
    )

    -- The buffer after a call of getdents(2) that has returned some records.
    refilled-Holds :
        hd.buffered ≡ []
        → (ch : Chunk l.rest w (k.getdents f buffer_size w))
        → let b = encode_all ch.chunk ++ drop (length (encode_all ch.chunk)) (bytes_of d.buffer) in
          (hd' : Holds k f all valid l
            (record d { buffer = some b; offset = 0; len = length (encode_all ch.chunk) })
            ch.w')
          × (hd'.buffered ≡ ch.chunk)
    refilled-Holds empty ch = (
      record {
        done = hd.done;
        buffered = ch.chunk;
        whole =
            hd.whole ∙ ap (λ x. hd.done ++ (x ++ l.rest w)) empty ∙ ap (λ x. hd.done ++ x) ch.next;
        counted = hd.counted;
        pre = [];
        post = drop (length (encode_all ch.chunk)) (bytes_of d.buffer);
        bytes = refl;
        at = refl;
        upto = omega arith;
        file = hd.file;
      },
      refl,
    )

    same_pending :
        hd.buffered ≡ []
        → (ch : Chunk l.rest w (k.getdents f buffer_size w))
        → pending k f all valid l hd ≡ ch.chunk ++ l.rest ch.w'
    same_pending empty ch = ap (λ x. x ++ l.rest w) empty ∙ ch.next

    some_bytes :
        (ch : Chunk l.rest w (k.getdents f buffer_size w)) (e : Dirent) (es : List Dirent)
        → ch.chunk ≡ e ∷ es
        → (length (encode_all ch.chunk) == 0) ≡ false
    some_bytes ch e es first = ground (
      arith,
      ap (λ x. length (encode_all x)) first,
      length-append (encode e) (encode_all es),
      length-encode e,
    )

    refilled-Does :
        hd.buffered ≡ []
        → 0 < q.room
        → (ch : Chunk l.rest w (k.getdents f buffer_size w))
        → Does []
            (target hd)
            (length (pending k f all valid l hd))
            (refilled k (suc rounds) q size d (returned (encode_all ch.chunk)) ch.w')
    unfolding refilled wanted
    refilled-Does empty room ch = elim (List-cases ch.chunk) [
      | inl nothing ↦
          let none_left = ap (λ x. x ++ l.rest w) empty ∙ ch.some_more nothing in
          (
            stop [] (returned tt) d ch.w',
            rw nothing refl,
            (
              refl,
              record {
                new = [];
                more = target hd;
                reply = refl;
                split = refl;
                fits = omega arith;
                progress = λ _. inl (ap (λ x. wanted q.from d.cookie x) none_left);
                holds = record {
                  done = hd.done;
                  buffered = hd.buffered;
                  counted = hd.counted;
                  pre = hd.pre;
                  post = hd.post;
                  bytes = hd.bytes;
                  at = hd.at;
                  upto = hd.upto;
                  file = hd.file;
                  whole =
                      hd.whole
                      ∙ ap (λ x. hd.done ++ (hd.buffered ++ x))
                          (ch.next ∙ ap (λ x. x ++ l.rest ch.w') nothing);
                };
              },
            ),
          )
      | inr (e, es, first) ↦
          let (hd', same) = refilled-Holds empty ch in
          let (x, run, does) =
            parse_entry-Does k f all valid l _ ch.w' hd' e es (same ∙ first) q [] size room in
          let back = ap (λ y. y ++ l.rest ch.w') same ∙ sym (same_pending empty ch) in
          (
            x,
            rw (some_bytes ch e es first) run,
            subst (λ y. RoundDoes k f all valid l q [] (wanted q.from d.cookie y) (length y) x) back
                does,
          )
    ]

    small_rest : hd.buffered ≡ [] → ltb (d.len - d.offset) 19 ≡ true
    small_rest empty =
        ltb_of_lt (omega (arith, hd.upto, hd.at, ap (λ x. length (encode_all x)) empty))

    refill :
        hd.buffered ≡ []
        → (length {A = DirEntry} [] == q.room) ≡ false
        → Does []
            (target hd)
            (length (pending k f all valid l hd))
            (read_round k (suc rounds) q [] size d w)
    unfolding read_round
    refill empty space =
        let ch = l.lists w in
        let call : k.getdents d.fd buffer_size w ≡ (returned (encode_all ch.chunk), ch.w') =
          ap (λ g. k.getdents g buffer_size w) hd.file ∙ ch.writes in
        let (x, run, does) = refilled-Does empty (omega (arith, ne_of_beq space)) ch in
        (
          x,
          rw
              (
                space,
                small_rest empty,
                ignore_eintr2-returned rounds (k.getdents d.fd buffer_size) w ch.w'
                    (encode_all ch.chunk) call,
              )
              run,
          does,
        )

    pub read_round-Does :
        (out : List DirEntry)
        → length out ≤ q.room
        → Does out
            (target hd)
            (length (pending k f all valid l hd))
            (read_round k (suc rounds) q out size d w)
    unfolding read_round
    read_round-Does out fits = elim (Bool-cases (length out == q.room)) [
      | inl full ↦
          let e = (==_iff (length out) q.room).0 full in
          rw full (stops_here out fits (λ none_read. sym e ∙ ap (λ x. length x) none_read))
      | inr space ↦ elim (List-cases hd.buffered) [
        | inr (e, bs, first) ↦
            let large : ltb (d.len - d.offset) 19 ≡ false =
              ltb_of_le (omega (arith, len_lem k f all valid l d w hd e bs first, hd.at)) in
            rw (space, large)
              (parse_entry-Does k f all valid l d w hd e bs first q out size
                (omega (arith, fits, ne_of_beq space)))
        | inl empty ↦ elim (List-cases out) [
          | inr (x, xs, some_read) ↦
              let more : ltb 0 (length out) ≡ true =
                ltb_of_lt (omega (arith, ap (λ y. length y) some_read)) in
              rw (space, small_rest empty, more)
                (stops_here out fits (λ none_read.
                  absurd
                    (omega (arith, ap (λ y. length y) some_read, ap (λ y. length y) none_read))))
          | inl none_read ↦
              subst
                (λ o.
                  (length o == q.room) ≡ false
                  → Does o (target hd) (length (pending k f all valid l hd))
                      (read_round k (suc rounds) q o size d w))
                (sym none_read) (refill empty) space
        ]
      ]
    ]
