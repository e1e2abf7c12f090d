-- ===== src/TaskApi/Interleavings.antt =====
-- Sequences of the sections of internal/transport/council/routes.go that run under the lock, on one
-- task and in any order.

use ai_council.Prelude.{◌≡◌, false, Option, none, some, List, [], ◌∷◌, arith, All}
use ai_council.Schema.{ExecutionPlan}
use ai_council.RunState.{State}
use ai_council.Council.Workflow.{Stage}
use ai_council.Storage.Sql.{World}
use ai_council.TaskApi.{ApprovalRequest, Server, Ctx}
use ai_council.TaskApi.Start.{begin_analysis, report_stage, fail_deliberation, conclude}
use ai_council.TaskApi.Execute.{Runner, execute_task}
use ai_council.TaskApi.Decide.{approve_task, reject_task, cancel_task}
use ai_council.TaskApi.Effects.{core}
use ai_council.TaskApi.Safety.{
  IsApproved, IsSound, unapproved-IsSound, begin-IsSound, report-IsSound, fail-IsSound,
  conclude-IsSound,
}
use ai_council.TaskApi.Execution.{execute-IsSound}
use ai_council.TaskApi.Granting.{approve-IsSound}
use ai_council.TaskApi.Withdrawal.{reject-IsSound, cancel-IsSound}

pub data Section : Type 0 where
  beginning failing rejecting cancelling : Section
  reporting : Stage → Section
  concluding : Option ExecutionPlan → Section
  approving : Option ApprovalRequest → Section
  executing : Option Runner → Section
  meanwhile : World → Section  -- whatever else is done to the database

-- The approvals that users have sent, with `seen` before them.
abbrev pub approvals : List ApprovalRequest → List Section → List ApprovalRequest
approvals seen [] = seen
approvals seen (Section.approving (some r) ∷ ss) = approvals (r ∷ seen) ss
approvals seen (_ ∷ ss) = approvals seen ss

module _ (server : Server) where
  unfoldable pub perform : Section → Ctx → Ctx
  unfolding begin_analysis fail_deliberation reject_task cancel_task report_stage conclude
      approve_task execute_task
  perform Section.beginning c = (begin_analysis server c).1
  perform Section.failing c = (fail_deliberation server c).1
  perform Section.rejecting c = (reject_task server c).1
  perform Section.cancelling c = (cancel_task server c).1
  perform (Section.reporting stage) c = (report_stage server stage c).1
  perform (Section.concluding plan) c = (conclude server plan c).1
  perform (Section.approving r) c = (approve_task server r c).1
  perform (Section.executing runner) c = (execute_task server runner c).1
  perform (Section.meanwhile w) c = record c { world = w }

  unfoldable pub perform_all : List Section → Ctx → Ctx
  unfolding perform
  perform_all [] c = c
  perform_all (s ∷ ss) c = perform_all ss (perform s c)

  abbrev SoundAfter : List ApprovalRequest → Ctx → Type 0
  SoundAfter seen c = IsSound server.digest seen (core c)

  sections-IsSound :
      (ss : List Section) (seen : List ApprovalRequest) (c : Ctx)
      → SoundAfter seen c
      → SoundAfter (approvals seen ss) (perform_all ss c)
  unfolding perform_all perform approve_task
  sections-IsSound [] seen c i = i
  sections-IsSound (Section.beginning ∷ ss) seen c i =
      sections-IsSound ss seen _ (begin-IsSound server seen c i)
  sections-IsSound (Section.failing ∷ ss) seen c i =
      sections-IsSound ss seen _ (fail-IsSound server seen c i)
  sections-IsSound (Section.rejecting ∷ ss) seen c i =
      sections-IsSound ss seen _ (reject-IsSound server seen c i)
  sections-IsSound (Section.cancelling ∷ ss) seen c i =
      sections-IsSound ss seen _ (cancel-IsSound server seen c i)
  sections-IsSound (Section.reporting stage ∷ ss) seen c i =
      sections-IsSound ss seen _ (report-IsSound server seen stage c i)
  sections-IsSound (Section.concluding plan ∷ ss) seen c i =
      sections-IsSound ss seen _ (conclude-IsSound server seen plan c i)
  sections-IsSound (Section.approving none ∷ ss) seen c i = sections-IsSound ss seen c i
  sections-IsSound (Section.approving (some r) ∷ ss) seen c i =
      sections-IsSound ss (r ∷ seen) _ (approve-IsSound server seen r c i)
  sections-IsSound (Section.executing runner ∷ ss) seen c i =
      sections-IsSound ss seen _ (execute-IsSound server seen runner c i)
  sections-IsSound (Section.meanwhile w ∷ ss) seen c i =
      sections-IsSound ss seen (record c { world = w }) i

  -- Whatever handlers run on a new task in whatever order, and whatever happens to the database,
  -- each request that is sent to the runner is that of a task whose approval hash is the hash of
  -- its plan, and a user has sent an approval with this hash and the version of the task.
  pub requests_approved :
      (c : Ctx) (ss : List Section)
      → c.task.state ≡ State.draft
      → c.task.approved ≡ false
      → c.sent ≡ []
      → All (IsApproved server.digest (approvals [] ss)) (perform_all ss c).sent
  requests_approved c ss draft no_approval nothing =
      (sections-IsSound ss [] c (
        unapproved-IsSound server.digest [] (core c) no_approval (λ e. ground arith)
          (λ e. ground arith) (rw nothing tt))).sent
