-- ===== src/Bbfs/Forward.antt =====
-- Each handler does what `call_of` and `answer_of` say of its request.
