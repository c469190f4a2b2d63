-- ===== src/Unix/Enumerating.antt =====
-- systems/unix/readdir_linux.go: the loop of `readDirEntries`, and the call as a whole.
use wasi_go.Base.{
  ℕ, zero, suc, ◌<◌, ◌≤◌, ltb, ◌≡◌, ◌≢◌, refl, ap, ◌∙◌, sym, subst, Option, none, some, List, [],
  ◌∷◌, ◌++◌, length, length-append, arith, Bool-cases, ◌⊎◌, inl, inr, Run, ok, replicate,
  le_of_not_ltb,
}
use mathlib.Core.List.{append_assoc}
use wasi_go.File.{Bytes, DirEntry}
use wasi_go.Unix.Calls.{Called, returned}
use wasi_go.Unix.Calls.Laws.{ignore_eintr2-returned}
use wasi_go.Unix.Directory.{
  DirKernel, Dirbuf, Request, Round, stop, go, bytes_of, read_loop, rewound, read_dir_entries,
  buffer_size, or_new, allocated,
}
use wasi_go.Unix.Dirents.{Dirent, AllDirents, encode_all, wanted}
use wasi_go.Unix.Listing.{live, ListsDir, Holds, pending, RoundDoes, wanted-append}
use wasi_go.Unix.DirRounds.{target, read_round-Does}

module _ {File World : Type 0} (k : DirKernel File World) (f : File) (all : List Dirent)
    (valid : AllDirents all) (l : ListsDir k f all) (rounds : ℕ) (q : Request) where
  -- The reply of the loop, with the entries `out` read before.
  record Listed (out : List DirEntry) (t : List DirEntry)
      (r : (List DirEntry × Called (Unit {0})) × Dirbuf File × World) : Type 0 where
    new : List DirEntry
    more : List DirEntry
    reply : r.0 ≡ (out ++ new, returned tt)
    split : t ≡ new ++ more
    fits : length (out ++ new) ≤ q.room
    progress : (more ≡ []) ⊎ ((q.room ≡ 0) ⊎ (out ++ new ≢ []))
    holds : Holds k f all valid l r.1 r.2

  abbrev Returns :
      List DirEntry
      → List DirEntry
      → Run ((List DirEntry × Called (Unit {0})) × Dirbuf File × World)
      → Type 0
  Returns out t m =
      (r : (List DirEntry × Called (Unit {0})) × Dirbuf File × World) × (m ≡ ok r) × Listed out t r

  listed_after :
      (out out' new1 t t' : List DirEntry)
      (m : Run ((List DirEntry × Called (Unit {0})) × Dirbuf File × World))
      → out' ≡ out ++ new1
      → t ≡ new1 ++ t'
      → Returns out' t' m
      → Returns out t m
  listed_after out out' new1 t t' m read split (r, run, ls) =
      let same : out' ++ ls.new ≡ out ++ (new1 ++ ls.new) =
        ap (λ x. x ++ ls.new) read ∙ append_assoc out new1 ls.new in
      (
        r,
        run,
        record {
          new = new1 ++ ls.new;
          more = ls.more;
          reply = ls.reply ∙ ap (λ x. (x, returned tt)) same;
          split = split ∙ ap (λ x. new1 ++ x) ls.split ∙ sym (append_assoc new1 ls.new ls.more);
          fits = subst (λ x. length x ≤ q.room) same ls.fits;
          progress = subst (λ x. (ls.more ≡ []) ⊎ ((q.room ≡ 0) ⊎ (x ≢ []))) same ls.progress;
          holds = ls.holds;
        },
      )

  progress_of :
      (o more : List DirEntry)
      → ((o ≡ []) → (more ≡ []) ⊎ (q.room ≡ 0))
      → (more ≡ []) ⊎ ((q.room ≡ 0) ⊎ (o ≢ []))
  progress_of [] more p = elim (p refl) [ inl m ↦ inl m | inr z ↦ inr (inl z) ]
  progress_of (y ∷ ys) more p = inr (inr (λ e. cc))

  read_loop-lists :
      (left : ℕ) (out : List DirEntry) (size : ℕ) (d : Dirbuf File) (w : World)
      (hd : Holds k f all valid l d w)
      → length (pending k f all valid l hd) < left
      → length out ≤ q.room
      → Returns out
          (target k f all valid l rounds q hd)
          (read_loop k (suc rounds) left q out size d w)
  unfolding read_loop
  read_loop-lists zero out size d w hd h fits = absurd (omega arith)
  read_loop-lists (suc left) out size d w hd h fits =
      let (x, run, does) = read_round-Does k f all valid l rounds q size d w hd out fits in
      rw run (cases x does (read_loop-lists left))
    where
      cases :
          (x : Round File World)
          → RoundDoes k f all valid l q out
              (target k f all valid l rounds q hd)
              (length (pending k f all valid l hd))
              x
          → ((out' : List DirEntry) (size' : ℕ) (d' : Dirbuf File) (w' : World)
                (hd' : Holds k f all valid l d' w')
              → length (pending k f all valid l hd') < left
              → length out' ≤ q.room
              → Returns out'
                  (target k f all valid l rounds q hd')
                  (read_loop k (suc rounds) left q out' size' d' w'))
          → Returns out (target k f all valid l rounds q hd) (elim x [
            | stop out' err d' w' ↦ ok ((out', err), d', w')
            | go out' size' d' w' ↦ read_loop k (suc rounds) left q out' size' d' w'
          ])
      cases (stop out' err d' w') (no_error, st) again = (
        ((out', err), d', w'),
        refl,
        record {
          new = st.new;
          more = st.more;
          reply = ap (λ e. (out', e)) no_error ∙ ap (λ o. (o, returned tt)) st.reply;
          split = st.split;
          fits = subst (λ o. length o ≤ q.room) st.reply st.fits;
          progress =
              subst (λ o. (st.more ≡ []) ⊎ ((q.room ≡ 0) ⊎ (o ≢ []))) st.reply
                (progress_of out' st.more st.progress);
          holds = st.holds;
        },
      )
      cases (go out' size' d' w') g again =
          listed_after out out' g.new (target k f all valid l rounds q hd) _ _ g.reply g.split
            (again out' size' d' w' g.holds (omega (arith, g.fewer)) g.fits)

  new_bytes :
      (o : Option Bytes) (pre x post : Bytes)
      → bytes_of o ≡ pre ++ (x ++ post)
      → (post' : Bytes) × (or_new o ≡ pre ++ (x ++ post'))
  unfolding or_new
  new_bytes (some b) pre x post e = (post, e)
  new_bytes none [] [] post e = (replicate buffer_size 0, refl)
  new_bytes none [] (c ∷ x) post e = cc
  new_bytes none (c ∷ pre) x post e = cc

  allocated-Holds :
      (d : Dirbuf File) (w : World) (hd : Holds k f all valid l d w)
      → (hd' : Holds k f all valid l (allocated d) w) × (pending k f all valid l hd'
          ≡ pending k f all valid l hd)
  allocated-Holds d w hd =
      let (post, bytes) = new_bytes d.buffer hd.pre (encode_all hd.buffered) hd.post hd.bytes in
      (
        record {
          done = hd.done;
          buffered = hd.buffered;
          whole = hd.whole;
          counted = hd.counted;
          pre = hd.pre;
          post = post;
          bytes = bytes;
          at = hd.at;
          upto = hd.upto;
          file = hd.file;
        },
        refl,
      )

  -- The reply of a call: entries from the cookie on, in their order, with none left out; some if there
  -- are any and there is room; and a buffer that can be read on.
  pub record Lists (r : (List DirEntry × Called (Unit {0})) × Dirbuf File × World) : Type 0 where
    pub entries : List DirEntry
    pub more : List DirEntry
    pub reply : r.0 ≡ (entries, returned tt)
    pub split : wanted q.from 0 all ≡ entries ++ more
    pub fits : length entries ≤ q.room
    pub progress : (more ≡ []) ⊎ ((q.room ≡ 0) ⊎ (entries ≢ []))
    pub holds : Holds k f all valid l r.1 r.2

  all_wanted :
      (d : Dirbuf File) (w : World) (hd : Holds k f all valid l d w)
      → d.cookie ≤ q.from
      → wanted q.from 0 all ≡ target k f all valid l rounds q hd
  all_wanted d w hd before =
      ap (λ x. wanted q.from 0 x) hd.whole
      ∙ wanted-append q.from 0 hd.done (pending k f all valid l hd) (omega (arith, hd.counted))
      ∙ ap (λ i. wanted q.from i (pending k f all valid l hd)) (omega (arith, hd.counted))

  -- The buffer behind a seek to the start.
  at_start :
      (d : Dirbuf File) (w w' : World)
      → Holds k f all valid l d w
      → l.rest w' ≡ all
      → Holds k f all valid l (record (allocated d) { offset = 0; len = 0; cookie = 0 }) w'
  unfolding live
  at_start d w w' hd restart = record {
    done = [];
    buffered = [];
    whole = sym restart;
    counted = refl;
    pre = [];
    post = or_new d.buffer;
    bytes = refl;
    at = refl;
    upto = omega arith;
    file = hd.file;
  }

  read_loop_from :
      (left size : ℕ) (d : Dirbuf File) (w : World) (hd : Holds k f all valid l d w)
      → length all < left
      → d.cookie ≤ q.from
      → (r : (List DirEntry × Called (Unit {0})) × Dirbuf File × World) × (read_loop k
            (suc rounds)
            left
            q
            []
            size
            d
            w
          ≡ ok r)
        × Lists r
  read_loop_from left size d w hd enough before =
      let shorter = ap (λ x. length x) hd.whole in
      let lengths = length-append hd.done (pending k f all valid l hd) in
      let (r, run, ls) =
        read_loop-lists left [] size d w hd (omega (arith, shorter, lengths)) (omega arith) in
      (
        r,
        run,
        record {
          entries = ls.new;
          more = ls.more;
          reply = ls.reply;
          split = all_wanted d w hd before ∙ ls.split;
          fits = ls.fits;
          progress = ls.progress;
          holds = ls.holds;
        },
      )

  -- From a buffer that holds records of a directory which the kernel lists, uninterrupted and
  -- without errors, readDirEntries returns with as many rounds as there are records and one more.
  -- It returns entries of the directory from the cookie on, in order and with none left out, at
  -- most as many as there is room for; at least one, if there are any and there is room; and the
  -- buffer is in such a state again.
  pub read_dir_entries-Lists :
      (left size : ℕ) (d : Dirbuf File) (w : World)
      → Holds k f all valid l d w
      → length all < left
      → (r : (List DirEntry × Called (Unit {0})) × Dirbuf File × World) × (read_dir_entries k
            (suc rounds)
            left
            q
            size
            d
            w
          ≡ ok r)
        × Lists r
  unfolding read_dir_entries rewound
  read_dir_entries-Lists left size d w hd enough =
      let (hd', same) = allocated-Holds d w hd in
      elim (Bool-cases (ltb q.from d.cookie)) [
        | inr on ↦
            let (r, run, ls) =
              read_loop_from left size (allocated d) w hd' enough (le_of_not_ltb on) in
            (r, rw on run, ls)
        | inl back ↦
            let (w', call, restart) = l.starts w in
            let call' : k.rewind d.fd w ≡ (returned 0, w') =
              ap (λ g. k.rewind g w) hd.file ∙ call in
            let (r, run, ls) =
              read_loop_from left size (record (allocated d) { offset = 0; len = 0; cookie = 0 }) w'
                (at_start d w w' hd restart) enough (omega arith) in
            (r, rw (back, ignore_eintr2-returned rounds (k.rewind d.fd) w w' 0 call') run, ls)
      ]
