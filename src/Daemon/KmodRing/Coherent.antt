-- ===== src/Daemon/KmodRing/Coherent.antt =====
-- The kernel and the consumer in turns: the pages that the kernel loads are those that it stored.
use distributed_uvm.Prelude.{
  ℕ, ◌≡◌, ◌≢◌, sym, ap, ◌∙◌, subst, Option, some, arith, get_elem?, set, Every, inl, inr,
}
use distributed_uvm.Prelude.HashMap.{HashMap, lookup}
use distributed_uvm.Common.Page.{PageBuffer}
use distributed_uvm.Backends.Trait.{DuvmBackend}
use distributed_uvm.Backends.Contract.{Contract, IsPage}
use distributed_uvm.Daemon.Engine.{Engine, Float}
use distributed_uvm.Daemon.Engine.Inv.{IsSound}
use distributed_uvm.Daemon.Engine.History.{Agrees, with_backends-IsSound}
use distributed_uvm.Daemon.KmodRing.{KmodRequest, Region, idle, answered, op_load, poll_once}
use distributed_uvm.Daemon.KmodRing.Shared.{IsRegion, IsNext, answer_to}
use distributed_uvm.Daemon.KmodRing.Effect.{
  Effect, Answers, poll_once_lem, stored, not_stored, loaded, missed, rejected,
}
use distributed_uvm.Daemon.KmodRing.System.{
  System, recall_request, recall, Step, written, polled, Reach, started, later, Loads,
}
use distributed_uvm.Daemon.KmodRing.Recall.{recall-IsPage, Effect-Agrees, remembers, Effect-whole}

module _ (k : ℕ) {F B : Type 0} (float : Float F) {ops : DuvmBackend B} (c : Contract ops) where
  -- What holds in every reachable state.
  pub record IsCoherent (s : System B) : Type 0 where
    pub region_valid : IsRegion k s.region
    pub whole : Every IsPage s.region.staging
    pub remembered : (j : ℕ) (page : PageBuffer) → s.memory j ≡ some page → IsPage page
    pub sound : IsSound c s.engine
    pub agrees : Agrees float c s.engine s.memory

  pub polled_pending :
      (s : System B) (now : ℕ) (region' : Region) (e' : Engine B)
      → poll_once float ops s.region now s.engine ≡ answered region' e'
      → s.region.req_read ≢ s.region.req_write
  polled_pending s now region' e' run same =
      let nothing : poll_once float ops s.region now s.engine ≡ idle =
        unfold poll_once in ground (arith, same) in
      absurd (ground (arith, run, nothing))

  -- The answer to a poll of a coherent system.
  pub answer :
      (s : System B) (now : ℕ) (region' : Region) (e' : Engine B)
      → IsCoherent s
      → poll_once float ops s.region now s.engine ≡ answered region' e'
      → (req : KmodRequest) × (get_elem? s.region.requests s.region.req_read ≡ some req)
        × ((result : ℕ) × IsNext k s.region req result region'
            × Effect c req s.region.staging s.engine result region'.staging e')
  answer s now region' e' i run =
      let (req, here, a) =
        poll_once_lem c float k s.region now s.engine i.region_valid
          (polled_pending s now region' e' run) i.whole i.sound in
      (req, here, subst (Answers c k s.region s.engine req) run a)

  recall-run :
      (region : Region) (req : KmodRequest) (memory : ℕ → Option PageBuffer)
      → get_elem? region.requests region.req_read ≡ some req
      → (j : ℕ) → recall region memory j ≡ recall_request req region.staging memory j
  recall-run region req memory here j = ground (arith, here)

  Step-IsCoherent : (s t : System B) → IsCoherent s → Step k float ops s t → IsCoherent t
  Step-IsCoherent s t i (written region v whole r w f) = record {
    region_valid = v;
    whole = whole;
    remembered = i.remembered;
    sound = i.sound;
    agrees = i.agrees;
  }
  Step-IsCoherent s t i (polled now region' e' run) =
      let (req, here, (result, next, effect)) = answer s now region' e' i run in
      let staging = s.region.staging in
      let (v, a) =
        Effect-Agrees float c req staging s.engine result region'.staging e' s.memory i.sound
          i.agrees effect in
      record {
        region_valid = next.valid;
        whole =
            Effect-whole float c req staging s.engine result region'.staging e' s.memory i.whole
              i.remembered i.agrees effect;
        remembered = λ j page h.
            recall-IsPage float c req staging s.memory i.whole i.remembered j page
              (sym (recall-run s.region req s.memory here j) ∙ h);
        sound = v;
        agrees = λ j. elim (a j) [
          | inl n ↦ inl n
          | inr q ↦ inr (q ∙ sym (recall-run s.region req s.memory here j))
        ];
      }

  pub Reach-IsCoherent :
      (backends : HashMap B)
      → ((id : ℕ) (b : B) → lookup id backends ≡ some b → c.IsValid b)
      → (s : System B) → Reach k float ops backends s
      → IsCoherent s
  Reach-IsCoherent backends valid s (started region v whole) =
      let (sound, empty) = with_backends-IsSound float c backends valid in
      record {
        region_valid = v;
        whole = whole;
        remembered = λ j page h. absurd (ground (arith, h));
        sound = sound;
        agrees = λ j. inl (empty j);
      }
  Reach-IsCoherent backends valid t (later {s} r step) =
      Step-IsCoherent s t (Reach-IsCoherent backends valid s r) step

  Effect-Loads :
      (s : System B) (region' : Region) (e' : Engine B) (req : KmodRequest) (result : ℕ)
      → IsCoherent s
      → req.op ≡ op_load
      → IsNext k s.region req result region'
      → Effect c req s.region.staging s.engine result region'.staging e'
      → Loads k float ops s req region'
  Effect-Loads s region' e' req result i op n (stored page h q t r same f) =
      absurd (omega (arith, op, q))
  Effect-Loads s region' e' req result i op n (not_stored page x q t r same f) =
      absurd (omega (arith, op, q))
  Effect-Loads s region' e' req result i op n (loaded page q shown r same kept) = inl (
    page,
    remembers float c s.engine s.memory req.offset page i.agrees shown,
    same,
    subst
        (λ x. region'.completions ≡ set s.region.completions s.region.comp_write (answer_to req x))
        r n.written,
  )
  Effect-Loads s region' e' req result i op n (missed q shown r same kept) = inr (
    same,
    subst
        (λ x. region'.completions ≡ set s.region.completions s.region.comp_write (answer_to req x))
        r n.written,
  )
  Effect-Loads s region' e' req result i op n (rejected ns nl r same kept) = absurd (nl op)

  -- Over backends that keep the contract, in any interleaving of kernel writes that keep the
  -- region in order and its staging pages whole with polls, from an engine that has just started
  -- on valid backends, a poll that answers a load writes a completion with the request's sequence
  -- number and slot: of result 0, with the page in the slot that the offset's last polled store
  -- found in its slot, or of result -1, with the staging buffer as it was.
  pub polled_load :
      (backends : HashMap B)
      → ((id : ℕ) (b : B) → lookup id backends ≡ some b → c.IsValid b)
      → (s : System B) (now : ℕ) (region' : Region) (e' : Engine B) (req : KmodRequest)
      → Reach k float ops backends s
      → get_elem? s.region.requests s.region.req_read ≡ some req
      → req.op ≡ op_load
      → poll_once float ops s.region now s.engine ≡ answered region' e'
      → Loads k float ops s req region'
  polled_load backends valid s now region' e' req r at op run =
      let i = Reach-IsCoherent backends valid s r in
      let (req', here, (result, next, effect)) = answer s now region' e' i run in
      let same : req' ≡ req = ground (arith, here, at) in
      subst (λ x. Loads k float ops s x region') same
        (Effect-Loads s region' e' req' result i (ap (λ x. x.op) same ∙ op) next effect)
