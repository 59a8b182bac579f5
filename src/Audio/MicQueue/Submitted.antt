-- ===== src/Audio/MicQueue/Submitted.antt =====
-- What `submit` takes, and that the queue stays within its storage.
