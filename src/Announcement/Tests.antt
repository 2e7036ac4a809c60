-- ===== src/Announcement/Tests.antt =====
-- An announcement on concrete values.
use property_community_agent.Base.{◌≡◌, refl, true, false, none, List, [], ◌∷◌, chars}
use property_community_agent.Announcement.Entities.{
  draft, approved, published, general, submit_review, approve, publish, withdraw, Announcement,
  Content, transition,
}
use property_community_agent.Announcement.Entities.Lifecycle.{
  Step, act, rewrite_content, apply_steps, is_settled, SameContent, approved_content_stays,
  IsReviewed, published_needs_review,
}

abbrev water_off : Announcement
water_off = record {
  id = 1;
  community_id = 1;
  business_no = chars "GG";
  title = chars "water";
  body = chars "off";
  category = general;
  audience_condition = [];
  created_by = 10;
  create_idempotency_key = chars "k";
  scheduled_at = none;
  status = draft;
  version = 1;
  manager_recheck_required = false;
  published_at = none;
  withdrawn_at = none;
  created_at = 1;
  updated_at = 1;
}

abbrev whole_way : List Step
whole_way = act submit_review 2 ∷ act approve 3 ∷ act publish 4 ∷ []

is_out : (apply_steps whole_way water_off).status ≡ published
unfolding transition
is_out = refl

published_needs_review_example : IsReviewed water_off whole_way
published_needs_review_example = published_needs_review whole_way water_off refl is_out

abbrev reviewed : Announcement
reviewed = record water_off { status = approved }

abbrev other_content : Content
other_content = record {
  title = chars "x";
  body = chars "y";
  category = general;
  audience_condition = [];
}

abbrev tries : List Step
tries = rewrite_content other_content 5 ∷ act publish 6 ∷ act withdraw 7 ∷ []

approved_content_stays_example :
    (is_settled (apply_steps tries reviewed).status ≡ true)
    × SameContent reviewed (apply_steps tries reviewed)
approved_content_stays_example = approved_content_stays tries reviewed refl
