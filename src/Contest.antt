-- ===== src/Contest.antt =====
-- backend/internal/contest/types.go: the contest's status and what each phase opens.
pub mod Laws
mod Tests
use ctf_recruit.Base.{ℕ, Text, Bool, true, false, Option, ℤ, Result, ok, err}
use ctf_recruit.Base.{◌==◌, text_eq, if◌then◌else◌, codes, trim_space, to_lower}

abbrev pub status_draft : Text
status_draft = codes "draft"

abbrev pub status_upcoming : Text
status_upcoming = codes "upcoming"

abbrev pub status_running : Text
status_running = codes "running"

abbrev pub status_frozen : Text
status_frozen = codes "frozen"

abbrev pub status_ended : Text
status_ended = codes "ended"

pub record Contest : Type 0 where
  pub id : ℕ
  pub slug : Text
  pub title : Text
  pub description : Text
  pub status : Text
  pub starts_at : Option ℤ
  pub ends_at : Option ℤ

pub record Phase : Type 0 where
  pub status : Text
  pub announcement_visible : Bool
  pub challenge_list_visible : Bool
  pub challenge_detail_visible : Bool
  pub attachment_visible : Bool
  pub scoreboard_visible : Bool
  pub submission_allowed : Bool
  pub runtime_allowed : Bool
  pub registration_allowed : Bool
  pub starts_at : Option ℤ
  pub ends_at : Option ℤ
  pub message : Text

unfoldable pub normalize_status : Text → Text
normalize_status value =
    let s = to_lower (trim_space value) in
    if s == status_draft
    then status_draft
    else if s == status_upcoming
    then status_upcoming
    else if s == status_running
    then status_running
    else if s == status_frozen
    then status_frozen
    else if s == status_ended
    then status_ended
    else status_draft

unfoldable pub phase_message : Text → Text
phase_message status =
    if status == status_upcoming
    then codes "比赛尚未开始，当前仅开放注册与赛前说明。"
    else if status == status_running
    then codes "比赛进行中，题目、提交和排行榜已开放。"
    else if status == status_frozen
    then codes "比赛已进入冻结阶段，当前暂停提交与实例创建。"
    else if status == status_ended
    then codes "比赛已结束，当前保留题目与排行榜查看。"
    else codes "比赛仍在准备中，公开内容尚未开放。"

-- The value that `BuildPhase` starts from: every flag is false.
unfoldable pub blank_phase : Contest → Text → Phase
blank_phase current status = record {
  status = status;
  announcement_visible = false;
  challenge_list_visible = false;
  challenge_detail_visible = false;
  attachment_visible = false;
  scoreboard_visible = false;
  submission_allowed = false;
  runtime_allowed = false;
  registration_allowed = false;
  starts_at = current.starts_at;
  ends_at = current.ends_at;
  message = phase_message status;
}

-- The five assignments that the cases running, frozen and ended share.
unfoldable pub with_content : Phase → Phase
with_content p = record p {
  announcement_visible = true;
  challenge_list_visible = true;
  challenge_detail_visible = true;
  attachment_visible = true;
  scoreboard_visible = true;
}

unfoldable pub build_phase : Contest → Phase
unfolding blank_phase with_content
build_phase current =
    let status = normalize_status current.status in
    let phase = blank_phase current status in
    if status == status_running
    then record (with_content phase) {
      submission_allowed = true;
      runtime_allowed = true;
      registration_allowed = true;
    }
    else if status == status_frozen
    then record (with_content phase) {
      submission_allowed = false;
      runtime_allowed = false;
      registration_allowed = true;
    }
    else if status == status_ended
    then record (with_content phase) {
      submission_allowed = false;
      runtime_allowed = false;
      registration_allowed = false;
    }
    else if status == status_upcoming
    then record phase { announcement_visible = true; registration_allowed = true }
    else record phase { status = status_draft; message = phase_message status_draft }

pub record UpdateInput : Type 0 where
  pub status : Text
  pub starts_at : Text
  pub ends_at : Text

-- The interface `contest.Repository`: each call sees the state of the database and may change it.
pub record Repository (S E : Type 0) : Type 0 where
  pub current : S → Result E Contest × S
  pub update : UpdateInput → S → Result E Contest × S

module _ {S E : Type 0} where
  -- What `Service.Current` and `Service.Update` do with the repository's reply.
  abbrev normalized : Result E Contest × S → Result E Contest × S
  normalized (ok c, s) = (ok (record c { status = normalize_status c.status }), s)
  normalized (err e, s) = (err e, s)

  unfoldable pub current : Repository S E → S → Result E Contest × S
  current repo s = normalized (repo.current s)

  unfoldable pub update : Repository S E → UpdateInput → S → Result E Contest × S
  update repo input s = normalized (repo.update input s)

  abbrev to_phase : Result E Contest × S → Result E Phase × S
  to_phase (ok c, s) = (ok (build_phase c), s)
  to_phase (err e, s) = (err e, s)

  unfoldable pub phase : Repository S E → S → Result E Phase × S
  unfolding current
  phase repo s = to_phase (current repo s)
