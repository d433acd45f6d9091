-- ===== src/Sync/Keeping.antt =====
-- The backup of core/src/sync.c leaves a package of what is in the save, under the name made from
-- its content, or says why there is none.
use dae_moon.Prelude.{ℕ, ◌≡◌, ◌≢◌, refl, ap, sym, ◌∙◌, Option, some, Bytes, text, [], ◌∷◌, ◌==◌}
use dae_moon.Errors.{Code, Result, ok, err, not_found, buffer_too_small, empty_save}
use dae_moon.Util.Copy.{strlcpy, strlcpy_failure}
use dae_moon.Backend.{Title, Env, can_read_secure}
use dae_moon.Manifest.{Manifest, timestamp_none}
use dae_moon.Sync.Calls.{
  Call, Answer, Save, Stream, write, open_save, close_save, pack, fs_open, rename, remove,
  stream_close, clock_iso8601, read_secure_value,
}
use dae_moon.Sync.Io.{History, event, ask, attempt, ◌>>=◌}
use dae_moon.Sync.Paths.{with_suffix, sync_path_max, title_id_max, with_suffix_failure}
use dae_moon.Sync.Backup.{
  copy_field, stamp, fill_created_at, recorded_secure_value, describe, pack_payload, close_package,
  publish, pack_title_to,
}
use dae_moon.Sync.Options.{Opts}
use dae_moon.Sync.Trace.{
  Ensures, returns, fails, Ensures-bind, Ensures-ask, Ensures-ok, Ensures-err, Ensures-pure,
  Ensures-if, Ensures-attempt, Happened, here, later, Grows, Grows-event, now, Then-Grows,
}
use dae_moon.Sync.Packaged.{IsOpened, IsFilled, IsClosed, IsPublished}
use dae_moon.Sync.Guard.{
  Allowed, IsPacked, IsPacked-Grows, MetNotFound, SaysNotFound, MetNotFound-Grows,
}

-- A failure not_found was an answer.
abbrev pub Excused : Code → History → Type 0
Excused e h = e ≡ not_found → MetNotFound h

pub met :
    (c : Call) (r : Answer c) {h : History}
    → SaysNotFound c r
    → Happened (event c r) h
    → MetNotFound h
met c r told m = record { what = c; answer = r; told = told; happened = m }

pub too_small : (e : Code) {h : History} → e ≡ buffer_too_small → Excused e h
too_small e p q = absurd (differ (sym p ∙ q))
  where
    differ : buffer_too_small ≢ not_found
    differ x = cc

module _ (opts : Opts) where
  abbrev IsDescribed : {A : Type 0} → Result A → History → Type 0
  IsDescribed (ok a) h = Unit
  IsDescribed (err e) h = e ≡ buffer_too_small

  copy_field_lem :
      (room : ℕ) (s : Option Bytes) (h : History)
      → Ensures (Allowed opts) IsDescribed h (copy_field room s)
  unfolding copy_field
  copy_field_lem room s h =
      Ensures-pure (strlcpy room s).1 (λ a e. returns _ tt) (λ e p. strlcpy_failure room s e p)

  -- What is ensured of a packing into the file `f`.
  abbrev Packed : Title → Bytes → Stream → Result Manifest → History → Type 0
  Packed t tmp f (ok m) h = IsPacked m h × IsFilled t tmp f h
  Packed t tmp f (err e) h = Excused e h

  pack_payload_lem :
      (t : Title) (tmp : Bytes) (save : Save) (m : Manifest) (f : Stream) (h : History)
      → IsOpened t save tmp f h
      → Ensures (Allowed opts) (Packed t tmp f) h (pack_payload save m f)
  unfolding pack_payload
  pack_payload_lem t tmp save m f h o = Ensures-ask (pack save m f) tt (elim [
    | err e ↦
        Ensures-err _ e
          (λ q. record { what = pack save m f; answer = err e; told = ap err q; happened = here })
    | ok p ↦ Ensures-ok _ p (
        Ensures-if (p.count == 0) (λ z. fails empty_save (λ q. cc))
          (λ z. returns _ (
            record {
              save = save;
              identity = m;
              file = f;
              payload = p;
              packed = here;
              filled = z;
              complete = refl;
            },
            record { save = save; identity = m; payload = p; packed = now o; filled = z },
          )))
  ])

  -- What is ensured behind the closing of that file.
  abbrev Closed : Title → Bytes → Stream → Result Manifest → History → Type 0
  Closed t tmp f (ok m) h = IsPacked m h × IsClosed t tmp f h
  Closed t tmp f (err e) h = Excused e h

  Closed-Grows :
      (t : Title) (tmp : Bytes) (f : Stream) (r : Result Manifest) {h h' : History}
      → Grows h h'
      → Closed t tmp f r h
      → Closed t tmp f r h'
  Closed-Grows t tmp f (ok m) g p = (IsPacked-Grows g p.0, Then-Grows g p.1)
  Closed-Grows t tmp f (err e) g p = λ q. MetNotFound-Grows g (p q)

  -- What `attempt` hands over keeps its condition.
  abbrev HandsOver :
      (Result Manifest → History → Type 0) → Result (Result Manifest) → History → Type 0
  HandsOver Q (ok r) h = Q r h
  HandsOver Q (err e) h = ⊥

  close_package_lem :
      (t : Title) (tmp : Bytes) (f : Stream) (r : Result Manifest) (h : History)
      → Packed t tmp f r h
      → Ensures (Allowed opts) (HandsOver (Closed t tmp f)) h (close_package f r)
  unfolding close_package
  close_package_lem t tmp f (err e) h q =
      Ensures-ask (stream_close f) tt
        (λ x. returns _ (λ p. MetNotFound-Grows (Grows-event _ h) (q p)))
  close_package_lem t tmp f (ok m) h q = Ensures-ask (stream_close f) tt (elim [
    | err e ↦
        returns _
          (λ p. record { what = stream_close f; answer = err e; told = ap err p; happened = here })
    | ok x ↦ returns _ (IsPacked-Grows (Grows-event _ h) q.0, now q.1)
  ])

  abbrev pub Published : Title → Bytes → Result Manifest → History → Type 0
  Published t path (ok m) h = IsPacked m h × IsPublished t path h
  Published t path (err e) h = Excused e h

  publish_lem :
      (t : Title) (f : Stream) (tmp path : Bytes) (r : Result Manifest) (h : History)
      → Closed t tmp f r h
      → Ensures (Allowed opts) (Published t path) h (publish tmp path r)
  unfolding publish
  publish_lem t f tmp path (err e) h q =
      Ensures-ask (remove tmp) tt (λ x. fails e (λ p. MetNotFound-Grows (Grows-event _ h) (q p)))
  publish_lem t f tmp path (ok m) h q = Ensures-ask (rename tmp path) tt (elim [
    | err e ↦ Ensures-ask (remove tmp) tt (λ x. fails e (λ p. record {
      what = rename tmp path;
      answer = err e;
      told = ap err p;
      happened = later here;
    }))
    | ok x ↦
        returns m
          (IsPacked-Grows (Grows-event _ h) q.0, record { tmp = tmp; file = f; renamed = now q.1 })
  ])

  stamp_lem : (r : Result Bytes) (h : History) → Ensures (Allowed opts) IsDescribed h (stamp r)
  stamp_lem (err e) h = copy_field_lem 32 (some timestamp_none) h
  stamp_lem (ok []) h = copy_field_lem 32 (some timestamp_none) h
  stamp_lem (ok (c ∷ s)) h = returns _ tt

  fill_created_at_lem :
      (env : Env) (h : History) → Ensures (Allowed opts) IsDescribed h (fill_created_at env)
  unfolding fill_created_at
  fill_created_at_lem env h =
      Ensures-if env.clock_iso8601 (λ t. Ensures-ask (clock_iso8601 32) tt (λ r. stamp_lem r _))
        (λ t. copy_field_lem 32 (some timestamp_none) h)

  recorded_lem :
      (env : Env) (title : Title) (h : History)
      → Ensures (Allowed opts) IsDescribed h (recorded_secure_value env title)
  unfolding recorded_secure_value
  recorded_lem env title h =
      Ensures-if (can_read_secure env)
        (λ t. Ensures-ask (read_secure_value title) tt (λ r. returns _ tt)) (λ t. returns _ tt)

  describe_lem :
      (env : Env) (title : Title) (parent : ℕ) (h : History)
      → Ensures (Allowed opts) IsDescribed h (describe env title parent)
  unfolding describe
  describe_lem env title parent h =
      Ensures-bind (copy_field_lem title_id_max (some title.id) h)
        (λ a h1 g1 q1.
          Ensures-bind (copy_field_lem 65 env.device_label h1)
            (λ a2 h2 g2 q2.
              Ensures-bind (fill_created_at_lem env h2)
                (λ a3 h3 g3 q3.
                  Ensures-bind (recorded_lem env title h3) (λ a4 h4 g4 q4. returns _ tt)
                    (λ e h4 g4 q4. q4))
                (λ e h3 g3 q3. q3))
            (λ e h2 g2 q2. q2))
        (λ e h1 g1 q1. q1)

  pub pack_title_to_lem :
      (env : Env) (title : Title) (parent : ℕ) (path : Bytes) (h : History)
      → Ensures (Allowed opts) (Published title path) h (pack_title_to env title parent path)
  unfolding pack_title_to
  pack_title_to_lem env title parent path h =
      Ensures-bind (describe_lem env title parent h)
        (λ m h1 g1 q1.
          Ensures-pure (with_suffix sync_path_max path (text ".part"))
            (λ tmp e. Ensures-ask (open_save title) tt (elim [
              | err e ↦ Ensures-err _ e (λ p. met (open_save title) (err e) (ap err p) here)
              | ok save ↦ Ensures-ok _ save (
                  Ensures-ask (fs_open tmp write) tt (elim [
                    | err e ↦ Ensures-ask (close_save save) tt (λ x.
                        fails e (λ p. met (fs_open tmp write) (err e) (ap err p) (later here)))
                    | ok f ↦ stage tmp save m f _ (now here)
                  ]))
            ]))
            (λ e p. too_small e (with_suffix_failure sync_path_max path _ e p)))
        (λ e h1 g1 q1. too_small e q1)
    where
      stage :
          (tmp : Bytes) (save : Save) (m : Manifest) (f : Stream) (h' : History)
          → IsOpened title save tmp f h'
          → Ensures (Allowed opts) (Published title path) h' (
              attempt (pack_payload save m f) >>= λ packed. close_package f packed >>= λ closed.
              ask (close_save save) >>= λ _. publish tmp path closed)
      stage tmp save m f h' o =
          Ensures-bind {Q = HandsOver (Packed title tmp f)}
            (Ensures-attempt (λ r i q. q) (pack_payload_lem title tmp save m f h' o))
            (λ packed i g q.
              Ensures-bind (close_package_lem title tmp f packed i q)
                (λ closed j g' q'. Ensures-ask (close_save save) tt (λ x.
                  publish_lem title f tmp path closed _
                    (Closed-Grows title tmp f closed (Grows-event _ j) q')))
                (λ e j g' q'. absurd q'))
            (λ e i g q. absurd q)
