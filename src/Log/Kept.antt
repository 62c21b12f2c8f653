-- ===== src/Log/Kept.antt =====
-- What is in the files of a log after any calls of `Log`, failed ones and rotations included.
use mathlib.Core.List.{append-nil}
use mathlib.Core.Path.{subst}
use kogia.Base.{
  ◌≡◌, refl, sym, ap, ◌∙◌, inl, inr, Outcome-cases, List, [], ◌∷◌, ◌++◌, append_assoc, length, All,
}
use kogia.Log.Types.{Message, ReadOpts, Codec}
use kogia.Log.Driver.{Driver, Answers, write, make_room, log_line, log}
use kogia.Log.Rotation.{IsTidy}
use kogia.Log.Reader.{apply_tail, read_files}
use kogia.Log.History.{wanted, history, read_files-wanted, read_files-history}
use kogia.Log.Steps.{
  IsReady, IsWritten, accepted, log_all, pushed_out, pushed_out_by, dropped, Step, same_files,
  make_room-Step, write-Step,
}

module _ (codec : Codec) where
  Step-trans :
      (d d' d'' : Driver) (lost lost' new new' : List Message)
      → Step codec d lost new d'
      → Step codec d' lost' new' d''
      → Step codec d (lost ++ lost') (new ++ new') d''
  Step-trans d d' d'' lost lost' new new' s s' = record {
    kept =
        sym (append_assoc (history codec d) new new')
        ∙ (ap (λ (t : List Message). t ++ new') s.kept
            ∙ (append_assoc lost (history codec d') new'
                ∙ (ap (λ (t : List Message). lost ++ t) s'.kept
                    ∙ sym (append_assoc lost lost' (history codec d'')))));
    ready = s'.ready;
  }

  log_line-Step :
      (m : Message) (w : IsWritten codec m) (ans : Answers) (tidy : IsTidy ans) (d : Driver)
      → IsReady d
      → Step codec d
          (pushed_out codec (length (w.line ++ b'\n' ∷ [])) ans d)
          (accepted (log_line (w.line ++ b'\n' ∷ []) ans d).0 m)
          (log_line (w.line ++ b'\n' ∷ []) ans d).1
  unfolding log_line
  log_line-Step m w ans tidy d ready =
      let line = w.line ++ b'\n' ∷ [] in
      let lost = pushed_out codec (length line) ans d in
      let room = make_room (length line) ans d in
      let s = make_room-Step codec (length line) ans tidy d ready in
      elim (Outcome-cases room.0) [
        | inl (u, e) ↦
            let done = accepted (write line ans room.1).0 m in
            rw (log_line, e)
              (subst (λ (l : List Message). Step codec d l done (write line ans room.1).1)
                (append-nil lost)
                (Step-trans d room.1 (write line ans room.1).1 lost [] [] done s
                  (write-Step codec m w ans tidy room.1 s.ready)))
        | inr (inl (x, e)) ↦ rw (log_line, e) (rw e s)
        | inr (inr e) ↦ rw (log_line, e) (rw e s)
      ]

  log-Step :
      (m : Message) (w : IsWritten codec m) (ans : Answers) (tidy : IsTidy ans) (d : Driver)
      → IsReady d
      → Step codec d
          (pushed_out_by codec m ans d)
          (accepted (log codec m ans d).0 m)
          (log codec m ans d).1
  unfolding log
  log-Step m w ans tidy d ready =
      rw (log, pushed_out_by, w.marshals) (log_line-Step m w ans tidy d ready)

  abbrev pub AllWritten : List (Message × Answers) → Type 0
  AllWritten calls = All (λ c. IsWritten codec c.0 × IsTidy c.1) calls

  log_all-Step :
      (calls : List (Message × Answers)) (d : Driver)
      → AllWritten calls
      → IsReady d
      → Step codec d (dropped codec d calls) (log_all codec d calls).0 (log_all codec d calls).1
  unfolding log_all dropped
  log_all-Step [] d w ready = same_files codec d d refl refl ready
  log_all-Step ((m, ans) ∷ calls) d w ready =
      let logged = log codec m ans d in
      let s = log-Step m w.0.0 ans w.0.1 d ready in
      Step-trans d logged.1 (log_all codec logged.1 calls).1 (pushed_out_by codec m ans d)
        (dropped codec logged.1 calls) (accepted logged.0 m) (log_all codec logged.1 calls).0 s
        (log_all-Step calls logged.1 w.1 s.ready)

  -- After any calls of `Log` on an open log, whichever of them failed and wherever the files were
  -- rotated, the messages that were there and those that were accepted are, in their order, those of
  -- the oldest file at each rotation and then what is kept; of these `ReadLogs` gives the last ones
  -- that its options ask for. The conditions: a message becomes one line of less than 64 KiB, which
  -- the codecs of JSON and of the time read back; a write that fails writes nothing; and the rotated
  -- files can be removed and renamed.
  pub log_all-Kept :
      (calls : List (Message × Answers)) (d : Driver) (opts : ReadOpts)
      → AllWritten calls
      → IsReady d
      → (kept : List Message) × (history codec d ++ (log_all codec d calls).0
          ≡ dropped codec d calls ++ kept)
        × (read_files codec opts (log_all codec d calls).1
            ≡ apply_tail opts.tail (wanted opts kept))
  log_all-Kept calls d opts w ready =
      let s = log_all-Step calls d w ready in
      let d' = (log_all codec d calls).1 in
      (
        history codec d',
        s.kept,
        read_files-wanted codec opts d'
            ∙ ap (λ (t : List Message). apply_tail opts.tail (wanted opts t))
                (read_files-history codec d'),
      )
