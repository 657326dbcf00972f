-- ===== src/View/Total.antt =====
-- What a function of src/libgilberta makes of a connection, together with the absence of faults.
use libgilberta.Base.{ℕ, ◌<◌, ◌≤◌}
use libgilberta.Os.{Os}
use libgilberta.Os.Benign.{Benign}
use libgilberta.Effect.{M, St, Run, ok, fault, out_of_fuel}
use libgilberta.Invariant.{Inv, Ensures}
use libgilberta.Invariant.Stage.{plain, At, At-of_Inv}
use libgilberta.Invariant.Turn.{Turn}
use libgilberta.Invariant.Tick.{setting, run-Turn}
use libgilberta.View.{Ends}

module _ (os : Os) (benign : Benign os) {n k : ℕ} (has_channels : 0 < n)
    (has_connections : 0 < k) where
  open os use {World}

  -- A run that does not fault has the outcome.
  pub Ensures-of_Ends :
      {A : Type 0} (Q : A → St World → Type 0) (m : M World A) (s : St World)
      → ((bound : ℕ) → Turn (setting os benign has_channels has_connections bound) plain plain m)
      → Inv n k s.ctx
      → Ends (m s) Q
      → Ensures (m s) Q
  Ensures-of_Ends {A} Q m s turn v ends =
      combined (m s) (run-Turn os benign has_channels has_connections m s turn (At-of_Inv s.ctx v))
        ends
    where
      combined :
          (r : Run World A)
          → Ensures r
              (λ _ t. At n k plain t.ctx × (benign.pending t.world ≤ benign.pending s.world))
          → Ends r Q
          → Ensures r Q
      combined (ok a t) h q = q
      combined fault h q = h
      combined out_of_fuel h q = h
